-- ===== src/Pipe/Fifo.antt =====
-- kernel/pipe.c: the ring buffer with its wrapping counters as a queue of bytes, oldest first.
use os_assignment.Prelude.{
  ℕ, zero, suc, ◌+◌, ◌-◌, ◌%◌, ◌^◌, ◌≤◌, ◌<◌, ◌≡◌, ◌≢◌, refl, ap, ◌∙◌, true, false, List, [], ◌∷◌,
  ◌++◌, arith, get_or, set, length, length-set, length-replicate,
}
use mathlib.Core.Path.{ap₂}
use os_assignment.Pipe.{
  Pipe, pipe_size, next_count, is_full, is_empty, put_byte, next_byte, drop_byte, fresh,
}

-- The number of bytes held: `nwrite - nread` on a `uint`.
abbrev pub count : Pipe → ℕ
count p = (p.nwrite + 2 ^ 32 - p.nread) % 2 ^ 32

pub record IsValid (p : Pipe) : Type 0 where
  pub storage : length p.buf ≡ pipe_size
  pub read_word : p.nread < 2 ^ 32
  pub write_word : p.nwrite < 2 ^ 32
  pub fits : count p ≤ pipe_size

-- `n` bytes from index `r` on, going round at the end of the storage.
abbrev pub span : List ℕ → ℕ → ℕ → List ℕ
span buf r zero = []
span buf r (suc n) = get_or buf (r % pipe_size) 0 ∷ span buf (r + 1) n

abbrev pub contents : Pipe → List ℕ
contents p = span p.buf p.nread (count p)

pub length-span : (buf : List ℕ) (r n : ℕ) → length (span buf r n) ≡ n
length-span buf r zero = refl
length-span buf r (suc n) = ap suc (length-span buf (r + 1) n)

pub length-contents : (p : Pipe) → length (contents p) ≡ count p
length-contents p = length-span p.buf p.nread (count p)

span_congr :
    (buf : List ℕ) (r s n : ℕ) → r % pipe_size ≡ s % pipe_size → span buf r n ≡ span buf s n
span_congr buf r s zero h = refl
span_congr buf r s (suc n) h =
    ap₂ ◌∷◌ (ap (λ k. get_or buf k 0) h) (span_congr buf (r + 1) (s + 1) n (omega arith))

get_or-set_self : (xs : List ℕ) (i v : ℕ) → i < length xs → get_or (set xs i v) i 0 ≡ v
get_or-set_self [] i v h = absurd (omega arith)
get_or-set_self (x ∷ xs) zero v h = refl
get_or-set_self (x ∷ xs) (suc i) v h = get_or-set_self xs i v (omega arith)

get_or-set_ne : (xs : List ℕ) (i j v : ℕ) → i ≢ j → get_or (set xs i v) j 0 ≡ get_or xs j 0
get_or-set_ne [] i j v h = refl
get_or-set_ne (x ∷ xs) zero zero v h = absurd (h refl)
get_or-set_ne (x ∷ xs) zero (suc j) v h = refl
get_or-set_ne (x ∷ xs) (suc i) zero v h = refl
get_or-set_ne (x ∷ xs) (suc i) (suc j) v h = get_or-set_ne xs i j v (λ e. h (ap suc e))

-- A write behind a span that leaves a cell free lengthens the span by that byte.
span-set :
    (buf : List ℕ) (w v r n : ℕ)
    → length buf ≡ pipe_size
    → n < pipe_size
    → w ≡ (r + n) % pipe_size
    → span (set buf w v) r (suc n) ≡ span buf r n ++ (v ∷ [])
span-set buf w v r zero l h e =
    let e' : r % pipe_size ≡ w = omega arith in
    ap (λ b. b ∷ []) (rw e' (get_or-set_self buf w v (omega arith)))
span-set buf w v r (suc n) l h e =
    ap₂ ◌∷◌ (get_or-set_ne buf w (r % pipe_size) v (omega arith))
      (span-set buf w v (r + 1) n l (omega arith) (omega arith))

pub fresh-IsValid : IsValid fresh
unfolding fresh
fresh-IsValid = record {
  storage = length-replicate {A = ℕ} pipe_size 5;
  read_word = omega arith;
  write_word = omega arith;
  fits = omega arith;
}

-- The two tests of the code, by the number of bytes held.
pub full-count : {p : Pipe} → IsValid p → is_full p ≡ true → count p ≡ pipe_size
full-count v h = ground arith

pub room-count : {p : Pipe} → IsValid p → is_full p ≡ false → count p < pipe_size
room-count v h = ground arith

pub empty-count : {p : Pipe} → IsValid p → is_empty p ≡ true → count p ≡ 0
empty-count v h = ground arith

pub nonempty-count : {p : Pipe} → IsValid p → is_empty p ≡ false → 0 < count p
nonempty-count v h = ground arith

-- `put_byte` on a pipe with room: one byte more, at the end.
pub put_byte-IsValid :
    {p : Pipe} (ch : ℕ) → IsValid p → count p < pipe_size → IsValid (put_byte p ch)
unfolding put_byte
put_byte-IsValid {p} ch v h = omega (arith, length-set p.buf (p.nwrite % pipe_size) ch, v.storage)

pub contents-put_byte :
    {p : Pipe} (ch : ℕ)
    → IsValid p
    → count p < pipe_size
    → contents (put_byte p ch) ≡ contents p ++ (ch ∷ [])
unfolding put_byte
contents-put_byte {p} ch v h =
    let e : count (put_byte p ch) ≡ suc (count p) = omega arith in
    ap (λ k. span (set p.buf (p.nwrite % pipe_size) ch) p.nread k) e
    ∙ span-set p.buf (p.nwrite % pipe_size) ch p.nread (count p) v.storage h (omega arith)

-- `drop_byte` on a pipe with a byte: the first one goes.
pub drop_byte-IsValid : {p : Pipe} → IsValid p → 0 < count p → IsValid (drop_byte p)
unfolding drop_byte
drop_byte-IsValid v h = omega (arith, v.storage)

pub contents-drop_byte :
    {p : Pipe} → IsValid p → 0 < count p → contents p ≡ next_byte p ∷ contents (drop_byte p)
unfolding drop_byte next_byte
contents-drop_byte {p} v h =
    let e : count p ≡ suc (count (drop_byte p)) = omega arith in
    ap (λ k. span p.buf p.nread k) e
    ∙ ap (λ xs. next_byte p ∷ xs)
        (span_congr p.buf (p.nread + 1) (next_count p.nread) (count (drop_byte p)) (omega arith))
