-- ===== src/Log/Writes.antt =====
-- kernel/log.c: what a sequence of disk writes leaves behind when the machine stops in its midst.
use os_assignment.Prelude.{
  ℕ, zero, suc, ◌+◌, ◌<◌, ◌≤◌, ◌≡◌, ◌⊎◌, inl, inr, refl, ◌∙◌, List, [], ◌∷◌, ◌++◌, take, arith,
  if◌then◌else◌, length, update,
}
use os_assignment.Log.{Disk, DiskWrite, put_block, apply_write, apply_writes, logged}

-- The disk after the first `k` of these writes.
abbrev pub crash : ℕ → List DiskWrite → Disk → Disk
crash k ws d = apply_writes (take k ws) d

-- A crash in two sequences is a crash in the first, or in the second behind the whole first.
pub crash-append :
    (k : ℕ) (vs ws : List DiskWrite) (d : Disk)
    → ((j : ℕ) × (crash k (vs ++ ws) d ≡ crash j vs d))
      ⊎ ((j : ℕ) × (crash k (vs ++ ws) d ≡ crash j ws (apply_writes vs d)))
crash-append k [] ws d = inr (k, refl)
crash-append zero (v ∷ vs) ws d = inl (0, refl)
crash-append (suc k) (v ∷ vs) ws d = elim (crash-append k vs ws (apply_write v d)) [
  | inl (j, e) ↦ inl (suc j, e)
  | inr (j, e) ↦ inr (j, e)
]

pub apply_writes-append :
    (vs ws : List DiskWrite) (d : Disk)
    → apply_writes (vs ++ ws) d ≡ apply_writes ws (apply_writes vs d)
apply_writes-append [] ws d = refl
apply_writes-append (v ∷ vs) ws d = apply_writes-append vs ws (apply_write v d)

-- The writes of the blocks `bs`, in order, with contents `f`.
abbrev pub home_writes : (ℕ → ℕ) → List ℕ → List DiskWrite
home_writes f [] = []
home_writes f (b ∷ bs) = put_block b (f b) ∷ home_writes f bs

-- The writes of those contents into the log's slots from `slot` on.
abbrev pub slot_writes : (ℕ → ℕ) → (slot : ℕ) → List ℕ → List DiskWrite
slot_writes f slot [] = []
slot_writes f slot (b ∷ bs) = put_block slot (f b) ∷ slot_writes f (slot + 1) bs

-- The slots from `slot` on hold the contents `f` of the blocks `bs`.
abbrev pub SlotsHold : (ℕ → ℕ) → (ℕ → ℕ) → (slot : ℕ) → List ℕ → Type 0
SlotsHold f sector slot [] = Unit
SlotsHold f sector slot (b ∷ bs) = (sector slot ≡ f b) × SlotsHold f sector (slot + 1) bs

-- A block that is not one of the `size` blocks of the log at `start`.
abbrev pub IsHome : (start size b : ℕ) → Type 0
IsHome start size b = (b < start) ⊎ (start + size ≤ b)

abbrev pub AllHome : (start size : ℕ) → List ℕ → Type 0
AllHome start size [] = Unit
AllHome start size (b ∷ bs) = IsHome start size b × AllHome start size bs

-- The contents with `f` installed at the blocks `bs`.
abbrev pub installed : (ℕ → ℕ) → List ℕ → (ℕ → ℕ) → ℕ → ℕ
installed f bs sector x = if logged x bs then f x else sector x

-- A write below or above the slots leaves them alone.
pub SlotsHold-update :
    (f sector : ℕ → ℕ) (slot b v : ℕ) (bs : List ℕ)
    → (b < slot) ⊎ (slot + length bs ≤ b)
    → SlotsHold f sector slot bs
    → SlotsHold f (update sector b v) slot bs
SlotsHold-update f sector slot b v [] apart h = tt
SlotsHold-update f sector slot b v (x ∷ xs) apart h =
    (ground arith, SlotsHold-update f sector (slot + 1) b v xs (ground arith) h.1)

-- A stop among the slots' writes: the header is as it was, and so is every block below the slots
-- or above them.
pub crash-slot_writes :
    (k : ℕ) (f : ℕ → ℕ) (slot : ℕ) (bs : List ℕ) (d : Disk)
    → ((crash k (slot_writes f slot bs) d).head ≡ d.head)
      × ((x : ℕ)
          → (x < slot) ⊎ (slot + length bs ≤ x)
          → (crash k (slot_writes f slot bs) d).sector x ≡ d.sector x)
crash-slot_writes zero f slot bs d = (refl, λ x a. refl)
crash-slot_writes (suc k) f slot [] d = (refl, λ x a. refl)
crash-slot_writes (suc k) f slot (b ∷ bs) d =
    let (h, s) = crash-slot_writes k f (slot + 1) bs (apply_write (put_block slot (f b)) d) in
    (h, λ x a. s x (ground arith) ∙ ground arith)

-- A stop among the home writes: the header is as it was, and so is every block not written.
pub crash-home_writes :
    (k : ℕ) (f : ℕ → ℕ) (bs : List ℕ) (d : Disk)
    → ((crash k (home_writes f bs) d).head ≡ d.head)
      × ((x : ℕ)
          → installed f bs (crash k (home_writes f bs) d).sector x ≡ installed f bs d.sector x)
crash-home_writes zero f bs d = (refl, λ x. refl)
crash-home_writes (suc k) f [] d = (refl, λ x. refl)
crash-home_writes (suc k) f (b ∷ bs) d =
    let (h, s) = crash-home_writes k f bs (apply_write (put_block b (f b)) d) in
    (h, λ x. ground (arith, s x))

-- Nor do they touch the slots.
pub crash-home_writes-SlotsHold :
    (k : ℕ) (f g : ℕ → ℕ) (slot size : ℕ) (bs cs : List ℕ) (d : Disk)
    → AllHome slot size bs
    → length cs ≤ size
    → SlotsHold g d.sector slot cs
    → SlotsHold g (crash k (home_writes f bs) d).sector slot cs
crash-home_writes-SlotsHold zero f g slot size bs cs d a l h = h
crash-home_writes-SlotsHold (suc k) f g slot size [] cs d a l h = h
crash-home_writes-SlotsHold (suc k) f g slot size (b ∷ bs) cs d a l h =
    crash-home_writes-SlotsHold k f g slot size bs cs (apply_write (put_block b (f b)) d) a.1 l
      (SlotsHold-update g d.sector slot b (f b) cs (ground arith) h)

-- All the writes are a stop behind the last.
pub crash_all : (ws : List DiskWrite) (d : Disk) → apply_writes ws d ≡ crash (length ws) ws d
crash_all [] d = refl
crash_all (w ∷ ws) d = crash_all ws (apply_write w d)

-- All the slots' writes together.
pub apply-slot_writes :
    (f : ℕ → ℕ) (slot : ℕ) (bs : List ℕ) (d : Disk)
    → SlotsHold f (apply_writes (slot_writes f slot bs) d).sector slot bs
apply-slot_writes f slot [] d = tt
apply-slot_writes f slot (b ∷ bs) d = (first, apply-slot_writes f (slot + 1) bs d')
  where
    d' : Disk
    d' = apply_write (put_block slot (f b)) d

    first : (apply_writes (slot_writes f (slot + 1) bs) d').sector slot ≡ f b
    first = rw (crash_all (slot_writes f (slot + 1) bs) d') (
        (crash-slot_writes (length (slot_writes f (slot + 1) bs)) f (slot + 1) bs d').1 slot
          (inl (omega arith))
        ∙ ground arith)

-- All the home writes together.
pub apply-home_writes :
    (f : ℕ → ℕ) (bs : List ℕ) (d : Disk)
    → ((apply_writes (home_writes f bs) d).head ≡ d.head)
      × ((x : ℕ) → (apply_writes (home_writes f bs) d).sector x ≡ installed f bs d.sector x)
apply-home_writes f [] d = (refl, λ x. refl)
apply-home_writes f (b ∷ bs) d =
    let (h, s) = apply-home_writes f bs (apply_write (put_block b (f b)) d) in
    (h, λ x. ground (arith, s x))
