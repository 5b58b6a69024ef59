-- ===== src/Console/Ring.antt =====
-- kernel/console.c: the ring as two sequences of characters, those that a reader may take and the line
-- that is being edited.
use os_assignment.Prelude.{
  ℕ, zero, suc, ◌+◌, ◌%◌, ◌^◌, ◌<◌, ◌≤◌, ◌≡◌, ◌≢◌, refl, ap, ◌∙◌, List, [], ◌∷◌, ◌++◌, arith,
  length, update,
}
use mathlib.Core.Path.{ap₂}
use os_assignment.Console.{Console, input_buf, distance, fresh}

-- `n` characters from index `i` on.
abbrev pub span : (ℕ → ℕ) → (i n : ℕ) → List ℕ
span buf i zero = []
span buf i (suc n) = buf (i % input_buf) ∷ span buf (i + 1) n

abbrev pub ready : Console → List ℕ
ready s = span s.buf s.r (distance s.r s.w)

abbrev pub line : Console → List ℕ
line s = span s.buf s.w (distance s.w s.e)

abbrev pub NoNewline : List ℕ → Type 0
NoNewline [] = Unit
NoNewline (c ∷ cs) = (c ≢ b'\n') × NoNewline cs

-- The indices are in the order r, w, e, at most `input_buf` apart, and the line has not ended.
pub record IsValid (s : Console) : Type 0 where
  pub r_word : s.r < 2 ^ 32
  pub w_word : s.w < 2 ^ 32
  pub e_word : s.e < 2 ^ 32
  pub order : distance s.r s.w + distance s.w s.e ≡ distance s.r s.e
  pub fits : distance s.r s.e ≤ input_buf
  pub open_line : NoNewline (line s)

pub length-span : (buf : ℕ → ℕ) (i n : ℕ) → length (span buf i n) ≡ n
length-span buf i zero = refl
length-span buf i (suc n) = ap suc (length-span buf (i + 1) n)

pub span_congr :
    (buf : ℕ → ℕ) (i j n : ℕ) → i % input_buf ≡ j % input_buf → span buf i n ≡ span buf j n
span_congr buf i j zero h = refl
span_congr buf i j (suc n) h = ap₂ ◌∷◌ (ap buf h) (span_congr buf (i + 1) (j + 1) n (omega arith))

pub span-add : (buf : ℕ → ℕ) (i m n : ℕ) → span buf i (m + n) ≡ span buf i m ++ span buf (i + m) n
span-add buf i zero n =
    let count : 0 + n ≡ n = omega arith in
    ap (λ k. span buf i k) count ∙ span_congr buf i (i + 0) n (omega arith)
span-add buf i (suc m) n =
    let count : suc m + n ≡ suc (m + n) = omega arith in
    ap (λ k. span buf i k) count
    ∙ ap (λ cs. buf (i % input_buf) ∷ cs)
        (span-add buf (i + 1) m n
          ∙ ap (λ cs. span buf (i + 1) m ++ cs)
              (span_congr buf (i + 1 + m) (i + suc m) n (omega arith)))

-- A store outside of a span.
pub span-update :
    (buf : ℕ → ℕ) (i m n v : ℕ)
    → n ≤ m
    → m < input_buf
    → span (update buf ((i + m) % input_buf) v) i n ≡ span buf i n
span-update buf i m zero v a b = refl
span-update buf i zero (suc n) v a b = absurd (omega arith)
span-update buf i (suc m) (suc n) v a b = ap₂ ◌∷◌ (ground arith) (
    ap (λ k. span (update buf k v) (i + 1) n) (omega arith)
    ∙ span-update buf (i + 1) m n v (omega arith) (omega arith))

pub NoNewline-append : (cs ds : List ℕ) → NoNewline (cs ++ ds) → NoNewline cs × NoNewline ds
NoNewline-append [] ds h = (tt, h)
NoNewline-append (c ∷ cs) ds h = let (a, b) = NoNewline-append cs ds h.1 in ((h.0, a), b)

pub append-NoNewline : (cs ds : List ℕ) → NoNewline cs → NoNewline ds → NoNewline (cs ++ ds)
append-NoNewline [] ds h k = k
append-NoNewline (c ∷ cs) ds h k = (h.0, append-NoNewline cs ds h.1 k)

pub fresh-IsValid : IsValid fresh
unfolding fresh
fresh-IsValid = record {
  r_word = omega arith;
  w_word = omega arith;
  e_word = omega arith;
  order = refl;
  fits = omega arith;
  open_line = tt;
}
