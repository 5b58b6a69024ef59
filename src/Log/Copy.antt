-- ===== src/Log/Copy.antt =====
-- kernel/log.c: what the loops of `write_log` and `install_trans` write, and in which order.
use os_assignment.Prelude.{
  ℕ, ◌+◌, ◌-◌, ◌<◌, ◌≤◌, ◌≡◌, ◌⊎◌, inl, refl, sym, ap, ◌∙◌, Bool, true, false, List, [], ◌∷◌, ◌++◌,
  arith, ◌==◌, if◌then◌else◌, length, update,
}
use mathlib.Core.List.{append-nil, append_assoc}
use os_assignment.Log.{
  put_block, apply_write, apply_writes, Machine, Log, bwrite, copy_block, bunpin, install_from,
  write_log_from,
}
use os_assignment.Log.Writes.{
  home_writes, slot_writes, SlotsHold, AllHome, installed, SlotsHold-update,
}

-- `g` has the contents `f` at the blocks `bs`.
abbrev pub Agree : (ℕ → ℕ) → (ℕ → ℕ) → List ℕ → Type 0
Agree f g [] = Unit
Agree f g (b ∷ bs) = (g b ≡ f b) × Agree f g bs

pub Agree-refl : (f : ℕ → ℕ) (bs : List ℕ) → Agree f f bs
Agree-refl f [] = tt
Agree-refl f (b ∷ bs) = (refl, Agree-refl f bs)

Agree-update :
    (f g : ℕ → ℕ) (start size x v : ℕ) (bs : List ℕ)
    → AllHome start size bs
    → start ≤ x
    → x < start + size
    → Agree f g bs
    → Agree f (update g x v) bs
Agree-update f g start size x v [] a l u h = tt
Agree-update f g start size x v (b ∷ bs) a l u h =
    (ground arith, Agree-update f g start size x v bs a.1 l u h.1)

-- What `write_log` from a slot on makes of `m`, when the blocks `bs` have the contents `f`.
pub record Logs (f : ℕ → ℕ) (slot : ℕ) (bs : List ℕ) (m m' : Machine) : Type 0 where
  pub log : m'.log ≡ m.log
  pub pins : m'.pins ≡ m.pins
  pub trace : m'.trace ≡ m.trace ++ slot_writes f slot bs
  pub disk : m'.disk ≡ apply_writes (slot_writes f slot bs) m.disk
  pub outside : (x : ℕ) → (x < slot) ⊎ (slot + length bs ≤ x) → m'.cache x ≡ m.cache x
  pub slots : SlotsHold f m'.cache slot bs

Logs-cons :
    (f : ℕ → ℕ) (slot to b : ℕ) (bs : List ℕ) (m m' : Machine)
    → slot ≡ to
    → m.cache b ≡ f b
    → Logs f (slot + 1) bs (bwrite to (copy_block to b m)) m'
    → Logs f slot (b ∷ bs) m m'
unfolding bwrite copy_block
Logs-cons f slot to b bs m m' e h r = record {
  log = r.log;
  pins = r.pins;
  trace =
      r.trace
      ∙ append_assoc m.trace (put_block to written ∷ []) (slot_writes f (slot + 1) bs)
      ∙ ap (λ w. m.trace ++ (w ∷ slot_writes f (slot + 1) bs)) same_write;
  disk =
      r.disk
      ∙ ap (λ w. apply_writes (slot_writes f (slot + 1) bs) (apply_write w m.disk)) same_write;
  outside = λ x o. r.outside x (ground arith) ∙ ground arith;
  slots = (r.outside slot (inl (omega arith)) ∙ ground arith, r.slots);
}
  where
    written : ℕ
    written = update m.cache to (m.cache b) to

    same_write : put_block to written ≡ put_block slot (f b)
    same_write = ground arith

pub write_log_from-Logs :
    (f : ℕ → ℕ) (tail slot size : ℕ) (bs : List ℕ) (m : Machine)
    → slot ≡ m.log.start + tail + 1
    → tail + 1 + length bs ≤ size
    → AllHome m.log.start size bs
    → Agree f m.cache bs
    → Logs f slot bs m (write_log_from tail bs m)
unfolding write_log_from
write_log_from-Logs f tail slot size [] m e l a h = record {
  log = refl;
  pins = refl;
  trace = sym (append-nil m.trace);
  disk = refl;
  outside = λ x o. refl;
  slots = tt;
}
write_log_from-Logs f tail slot size (b ∷ bs) m e l a h = Logs-cons f slot to b bs m _ e h.0 (
    write_log_from-Logs f (tail + 1) (slot + 1) size bs m₁ (omega arith) (omega arith) a.1 (
      Agree-update f m.cache m.log.start size to (m.cache b) bs a.1 (omega arith) (omega arith)
        h.1))
  where
    to : ℕ
    to = m.log.start + tail + 1

    m₁ : Machine
    m₁ = bwrite to (copy_block to b m)

abbrev pub count : ℕ → List ℕ → ℕ
count x [] = 0
count x (b ∷ bs) = (if b == x then 1 else 0) + count x bs

-- What `install_trans` makes of `m`, when the slots hold the contents `f` of the blocks `bs`.
pub record Installs (recovering : Bool) (f : ℕ → ℕ) (bs : List ℕ) (m m' : Machine) : Type 0 where
  pub log : m'.log ≡ m.log
  pub trace : m'.trace ≡ m.trace ++ home_writes f bs
  pub disk : m'.disk ≡ apply_writes (home_writes f bs) m.disk
  pub cache : (x : ℕ) → m'.cache x ≡ installed f bs m.cache x
  pub pins : (x : ℕ) → m'.pins x ≡ (if recovering then m.pins x else m.pins x - count x bs)

abbrev unpin_if : Bool → ℕ → Machine → Machine
unpin_if recovering b m = if recovering then m else bunpin b m

install_step :
    (recovering : Bool) (slot b : ℕ) (m : Machine)
    → let m' = unpin_if recovering b (bwrite b (copy_block b slot m)) in
      (m'.log ≡ m.log) × (m'.cache ≡ update m.cache b (m.cache slot))
unfolding bwrite copy_block bunpin
install_step true slot b m = (refl, refl)
install_step false slot b m = (refl, refl)

Installs-cons :
    (recovering : Bool) (f : ℕ → ℕ) (slot b : ℕ) (bs : List ℕ) (m m' : Machine)
    → m.cache slot ≡ f b
    → Installs recovering f bs (unpin_if recovering b (bwrite b (copy_block b slot m))) m'
    → Installs recovering f (b ∷ bs) m m'
unfolding bwrite copy_block bunpin
Installs-cons true f slot b bs m m' h r = record {
  log = r.log;
  trace =
      r.trace
      ∙ append_assoc m.trace _ (home_writes f bs)
      ∙ ap (λ w. m.trace ++ (w ∷ home_writes f bs)) same_write;
  disk = r.disk ∙ ap (λ w. apply_writes (home_writes f bs) (apply_write w m.disk)) same_write;
  cache = λ x. r.cache x ∙ ground arith;
  pins = r.pins;
}
  where
    same_write : put_block b (update m.cache b (m.cache slot) b) ≡ put_block b (f b)
    same_write = ground arith
Installs-cons false f slot b bs m m' h r = record {
  log = r.log;
  trace =
      r.trace
      ∙ append_assoc m.trace _ (home_writes f bs)
      ∙ ap (λ w. m.trace ++ (w ∷ home_writes f bs)) same_write;
  disk = r.disk ∙ ap (λ w. apply_writes (home_writes f bs) (apply_write w m.disk)) same_write;
  cache = λ x. r.cache x ∙ ground arith;
  pins = λ x. r.pins x ∙ ground arith;
}
  where
    same_write : put_block b (update m.cache b (m.cache slot) b) ≡ put_block b (f b)
    same_write = ground arith

pub install_from-Installs :
    (recovering : Bool) (f : ℕ → ℕ) (start tail slot size : ℕ) (bs : List ℕ) (m : Machine)
    → m.log.start ≡ start
    → slot ≡ start + tail + 1
    → tail + 1 + length bs ≤ size
    → AllHome start size bs
    → SlotsHold f m.cache slot bs
    → Installs recovering f bs m (install_from recovering tail bs m)
unfolding install_from
install_from-Installs recovering f start tail slot size [] m s e l a h = record {
  log = refl;
  trace = sym (append-nil m.trace);
  disk = refl;
  cache = λ x. refl;
  pins = λ x. ground arith;
}
install_from-Installs recovering f start tail slot size (b ∷ bs) m s e l a h =
    Installs-cons recovering f here b bs m _ now (
      install_from-Installs recovering f start (tail + 1) (slot + 1) size bs m₁
        (ap (λ (k : Log). k.start) step.0 ∙ s) (omega arith) (omega arith) a.1
        (rw (step.1, now) (SlotsHold-update f m.cache (slot + 1) b (f b) bs (ground arith) h.1)))
  where
    here : ℕ
    here = m.log.start + tail + 1

    m₁ : Machine
    m₁ = unpin_if recovering b (bwrite b (copy_block b here m))

    step : (m₁.log ≡ m.log) × (m₁.cache ≡ update m.cache b (m.cache here))
    step = install_step recovering here b m

    now : m.cache (m.log.start + tail + 1) ≡ f b
    now = let e' : m.log.start + tail + 1 ≡ slot = omega arith in rw e' h.0
