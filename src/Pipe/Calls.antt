-- ===== src/Pipe/Calls.antt =====
-- kernel/pipe.c: what one stretch of `pipewrite` or `piperead` under the lock does to the queue.
use os_assignment.Prelude.{
  ℕ, zero, suc, ◌+◌, ◌%◌, ◌^◌, ◌<◌, ◌≡◌, ◌⊎◌, inl, inr, refl, ap, sym, ◌∙◌, Bool, true, false, not,
  ◌||◌, Option, none, some, List, [], ◌∷◌, ◌++◌, arith, length, Bool-cases, Option-cases,
}
use mathlib.Core.List.{append-nil, append_assoc}
use os_assignment.Pipe.{
  Pipe, pipe_size, is_full, is_empty, put_byte, next_byte, drop_byte, WriteStop, closed, full,
  wrote, write_loop, Copied, read_loop,
}
use os_assignment.Pipe.Fifo.{
  IsValid, count, contents, room-count, full-count, empty-count, nonempty-count, put_byte-IsValid,
  contents-put_byte, drop_byte-IsValid, contents-drop_byte,
}

-- The user's memory holds these bytes from `addr + i` on.
abbrev pub HoldsBytes : (ℕ → Option ℕ) → ℕ → ℕ → List ℕ → Type 0
HoldsBytes copyin addr i [] = Unit
HoldsBytes copyin addr i (b ∷ bs) =
    (copyin ((addr + i) % 2 ^ 64) ≡ some b) × HoldsBytes copyin addr (i + 1) bs

-- Why the loop stopped, when it has put `k` bytes into the pipe and left it as `p`.
abbrev pub StopsFor : (ℕ → Bool) → (ℕ → Option ℕ) → (addr left i k : ℕ) → Pipe → WriteStop → Type 0
StopsFor killed copyin addr left i k p closed =
    (k < left) × ((p.readopen ≡ false) ⊎ (killed (i + k) ≡ true))
StopsFor killed copyin addr left i k p (full j) =
    (j ≡ i + k) × (k < left) × (count p ≡ pipe_size) × (p.readopen ≡ true)
StopsFor killed copyin addr left i k p (wrote j) =
    (j ≡ i + k) × ((k ≡ left) ⊎ ((k < left) × (copyin ((addr + j) % 2 ^ 64) ≡ none)))

pub record Writes (killed : ℕ → Bool) (copyin : ℕ → Option ℕ) (addr left i : ℕ) (p : Pipe)
    (out : WriteStop × Pipe) : Type 0 where
  pub bytes : List ℕ
  pub valid : IsValid out.1
  pub appended : contents out.1 ≡ contents p ++ bytes
  pub from_user : HoldsBytes copyin addr i bytes
  pub why : StopsFor killed copyin addr left i (length bytes) out.1 out.0
  pub same_ends : (out.1.readopen ≡ p.readopen) × (out.1.writeopen ≡ p.writeopen)

-- A stop after `k` more rounds, seen one round earlier.
StopsFor-suc :
    (killed : ℕ → Bool) (copyin : ℕ → Option ℕ) (addr left i k : ℕ) (p : Pipe) (s : WriteStop)
    → StopsFor killed copyin addr left (i + 1) k p s
    → StopsFor killed copyin addr (suc left) i (suc k) p s
StopsFor-suc killed copyin addr left i k p closed (less, inl h) = (omega arith, inl h)
StopsFor-suc killed copyin addr left i k p closed (less, inr h) =
    let e : i + suc k ≡ i + 1 + k = omega arith in (omega arith, inr (rw e h))
StopsFor-suc killed copyin addr left i k p (full j) h = (omega arith, omega arith, h.2, h.3)
StopsFor-suc killed copyin addr left i k p (wrote j) (e, inl h) = (omega arith, inl (omega arith))
StopsFor-suc killed copyin addr left i k p (wrote j) (e, inr h) =
    (omega arith, inr (omega arith, h.1))

module _ (killed : ℕ → Bool) (copyin : ℕ → Option ℕ) (addr : ℕ) where
  -- A loop that stops in its first round has put nothing.
  stop-Writes :
      (left i : ℕ) {p : Pipe} (s : WriteStop)
      → IsValid p
      → StopsFor killed copyin addr left i 0 p s
      → Writes killed copyin addr left i p (s, p)
  stop-Writes left i {p} s v h = record {
    bytes = [];
    valid = v;
    appended = sym (append-nil (contents p));
    from_user = tt;
    why = h;
    same_ends = (refl, refl);
  }

  put_byte-Writes :
      (left i ch : ℕ) {p : Pipe} {out : WriteStop × Pipe}
      → IsValid p
      → is_full p ≡ false
      → copyin ((addr + i) % 2 ^ 64) ≡ some ch
      → Writes killed copyin addr left (i + 1) (put_byte p ch) out
      → Writes killed copyin addr (suc left) i p out
  unfolding put_byte
  put_byte-Writes left i ch {p} {out} v room e w = record {
    bytes = ch ∷ w.bytes;
    valid = w.valid;
    appended =
        w.appended
        ∙ ap (λ xs. xs ++ w.bytes) (contents-put_byte ch v (room-count v room))
        ∙ append_assoc (contents p) (ch ∷ []) w.bytes;
    from_user = (e, w.from_user);
    why = StopsFor-suc killed copyin addr left i (length w.bytes) out.1 out.0 w.why;
    same_ends = w.same_ends;
  }

  -- What a stretch of `pipewrite` does to a sound pipe, on every branch: it appends bytes of the
  -- user's memory to the queue, in order and no more than were asked for, leaves the open flags
  -- alone, and stops because all are written, because the memory is not mapped, because the buffer
  -- holds 512 bytes, or because the read end is closed or the process killed.
  pub write_loop-Writes :
      (left i : ℕ) {p : Pipe}
      → IsValid p
      → Writes killed copyin addr left i p (write_loop killed copyin addr left i p)
  unfolding write_loop
  write_loop-Writes zero i v = stop-Writes zero i (wrote i) v (omega arith, inl refl)
  write_loop-Writes (suc left) i {p} v = elim (Bool-cases (not p.readopen || killed i)) [
    | inl gone ↦ rw gone (
        stop-Writes (suc left) i closed v
          (omega arith, let e : i + 0 ≡ i = omega arith in rw e (ground arith)))
    | inr open_end ↦ rw open_end (elim (Bool-cases (is_full p)) [
      | inl no_room ↦ rw no_room (
          stop-Writes (suc left) i (full i) v
            (omega arith, omega arith, full-count v no_room, ground arith))
      | inr room ↦ rw room (elim (Option-cases (copyin ((addr + i) % 2 ^ 64))) [
        | inl unmapped ↦
            rw unmapped
              (stop-Writes (suc left) i (wrote i) v (omega arith, inr (omega arith, unmapped)))
        | inr (ch, e) ↦ rw e (
            put_byte-Writes left i ch v room e
              (write_loop-Writes left (i + 1) (put_byte-IsValid ch v (room-count v room))))
      ])
    ])
  ]

-- The bytes of `got` fit the addresses from `addr + i` on.
abbrev pub Writable : (ℕ → Bool) → ℕ → ℕ → List ℕ → Type 0
Writable copyout addr i [] = Unit
Writable copyout addr i (b ∷ bs) =
    (copyout ((addr + i) % 2 ^ 64) ≡ true) × Writable copyout addr (i + 1) bs

-- Why the `for` of `piperead` stopped: all asked for, nothing left, or a byte that cannot be
-- delivered.
abbrev pub ReadStopsFor : (ℕ → Bool) → (addr left i k : ℕ) → Copied → Type 0
ReadStopsFor copyout addr left i k r =
    (r.lost ≡ []) × ((k ≡ left) ⊎ ((k < left) × (count r.pipe ≡ 0)))
    ⊎ (length r.lost ≡ 1) × (k < left) × (copyout ((addr + (i + k)) % 2 ^ 64) ≡ false)

pub record Reads (copyout : ℕ → Bool) (addr left i : ℕ) (p : Pipe) (r : Copied) : Type 0 where
  pub valid : IsValid r.pipe
  pub queue : contents p ≡ r.got ++ (r.lost ++ contents r.pipe)
  pub to_user : Writable copyout addr i r.got
  pub why : ReadStopsFor copyout addr left i (length r.got) r
  pub same_ends : (r.pipe.readopen ≡ p.readopen) × (r.pipe.writeopen ≡ p.writeopen)

module _ (copyout : ℕ → Bool) (addr : ℕ) where
  drop_byte-Reads :
      (left i : ℕ) {p : Pipe} {r : Copied}
      → IsValid p
      → is_empty p ≡ false
      → copyout ((addr + i) % 2 ^ 64) ≡ true
      → Reads copyout addr left (i + 1) (drop_byte p) r
      → Reads copyout addr (suc left) i p (record r { got = next_byte p ∷ r.got })
  unfolding drop_byte
  drop_byte-Reads left i {p} {r} v some_byte e d = record {
    valid = d.valid;
    queue = contents-drop_byte v (nonempty-count v some_byte) ∙ ap (λ xs. next_byte p ∷ xs) d.queue;
    to_user = (e, d.to_user);
    why = elim d.why [
      | inl (kept, inl all) ↦ inl (kept, inl (omega arith))
      | inl (kept, inr (less, none_left)) ↦ inl (kept, inr (omega arith, none_left))
      | inr (one, less, stuck) ↦ inr (one, omega arith, rw shift stuck)
    ];
    same_ends = d.same_ends;
  }
    where
      shift : (addr + (i + suc (length r.got))) % 2 ^ 64 ≡ (addr + (i + 1 + length r.got)) % 2 ^ 64
      shift = omega arith

  -- What the copying of `piperead` does to a sound pipe, on every branch: it takes bytes off the
  -- front of the queue, in order and no more than were asked for, and leaves the open flags alone;
  -- all of them reach the user's memory, but for one byte that is lost when `copyout` fails on it;
  -- without such a failure it stops because the bytes asked for are read or the queue is empty.
  pub read_loop-Reads :
      (left i : ℕ) {p : Pipe}
      → IsValid p
      → Reads copyout addr left i p (read_loop copyout addr left i p)
  unfolding read_loop
  read_loop-Reads zero i v = record {
    valid = v;
    queue = refl;
    to_user = tt;
    why = inl (refl, inl refl);
    same_ends = (refl, refl);
  }
  read_loop-Reads (suc left) i {p} v = elim (Bool-cases (is_empty p)) [
    | inl nothing ↦ rw nothing (record {
      valid = v;
      queue = refl;
      to_user = tt;
      why = inl (refl, inr (omega arith, empty-count v nothing));
      same_ends = (refl, refl);
    })
    | inr some_byte ↦ rw some_byte (elim (Bool-cases (copyout ((addr + i) % 2 ^ 64))) [
      | inl e ↦ rw e (
          drop_byte-Reads left i v some_byte e
            (read_loop-Reads left (i + 1) (drop_byte-IsValid v (nonempty-count v some_byte))))
      | inr stuck ↦ rw stuck (
          unfold drop_byte in
          record {
            valid = drop_byte-IsValid v (nonempty-count v some_byte);
            queue = contents-drop_byte v (nonempty-count v some_byte);
            to_user = tt;
            why = inr (refl, omega arith, let e : i + 0 ≡ i = omega arith in rw e stuck);
            same_ends = (refl, refl);
          })
    ])
  ]
