-- ===== src/Cache/Steps.antt =====
-- kernel/bio.c: the facts of the buffers over each critical section.
use os_assignment.Prelude.{
  ℕ, ◌<◌, ◌≤◌, ◌≡◌, ◌≢◌, refl, true, false, some, List, ◌∷◌, ◌==◌, arith, length, get_elem?, set,
  update,
}
use os_assignment.Cache.{Buf, nbuf, count_up, count_down, is_for}
use os_assignment.Cache.Users.{Mode, Ref, rank, remove_at, to_mode}
use os_assignment.Cache.Refs.{
  total-set, total-remove_at, refers, holds, uses-le-length, Matches, AllMatch-set,
  AllMatch-remove_at, AllMatch-recycle,
}
use os_assignment.Cache.Sound.{BufsSound, BufsSound-update}

module _ {buf : ℕ → Buf} {refs : List Ref} (h : BufsSound buf refs) where
  -- One more reference, that does not hold the lock.
  pub count_up-BufsSound :
      (r : Ref)
      → length refs < nbuf
      → (rank r.mode == 1) ≡ false
      → Matches buf r
      → BufsSound
          (update buf r.slot (record (buf r.slot) { refcnt = count_up (buf r.slot).refcnt }))
          (r ∷ refs)
  count_up-BufsSound r few no_lock m =
      BufsSound-update r.slot _ (refl, refl) h (m, h.match_all)
        (λ k. ground (arith, h.counted k, h.counted r.slot, uses-le-length r.slot refs, few))
        (λ k. ground (arith, h.locks k, no_lock))

  -- One less.
  pub count_down-BufsSound :
      (j : ℕ) (r : Ref)
      → length refs ≤ nbuf
      → get_elem? refs j ≡ some r
      → (rank r.mode == 1) ≡ false
      → BufsSound
          (update buf r.slot (record (buf r.slot) { refcnt = count_down (buf r.slot).refcnt }))
          (remove_at j refs)
  count_down-BufsSound j r few e no_lock =
      BufsSound-update r.slot _ (refl, refl) h (AllMatch-remove_at buf refs j h.match_all)
        (λ k. ground (
          arith,
          h.counted k,
          h.counted r.slot,
          uses-le-length r.slot refs,
          few,
          total-remove_at (refers k) refs j e,
        ))
        (λ k. ground (arith, h.locks k, no_lock, total-remove_at (holds k) refs j e))

  -- A reference that gets the lock.
  pub lock-BufsSound :
      (j : ℕ) (r : Ref)
      → get_elem? refs j ≡ some r
      → (rank r.mode == 1) ≡ false
      → (buf r.slot).locked ≡ false
      → BufsSound
          (update buf r.slot (record (buf r.slot) { locked = true }))
          (set refs j (to_mode Mode.holding r))
  lock-BufsSound j r e no_lock free =
      BufsSound-update r.slot _ (refl, refl) h (AllMatch-set buf refs j Mode.holding h.match_all e)
        (λ k. ground (arith, h.counted k, total-set (refers k) refs j (to_mode Mode.holding r) e))
        (λ k.
          ground (
            arith,
            h.locks k,
            no_lock,
            free,
            total-set (holds k) refs j (to_mode Mode.holding r) e,
          ))

  -- The holder of a buffer finds it locked.
  pub holder-locked :
      (j : ℕ) (r : Ref)
      → get_elem? refs j ≡ some r
      → (rank r.mode == 1) ≡ true
      → (buf r.slot).locked ≡ true
  holder-locked j r e has_lock =
      ground (arith, h.locks r.slot, has_lock, total-remove_at (holds r.slot) refs j e)

  -- The holder lets go.
  pub unlock-BufsSound :
      (j : ℕ) (r : Ref)
      → get_elem? refs j ≡ some r
      → (rank r.mode == 1) ≡ true
      → BufsSound
          (update buf r.slot (record (buf r.slot) { locked = false }))
          (set refs j (to_mode Mode.leaving r))
  unlock-BufsSound j r e has_lock =
      BufsSound-update r.slot _ (refl, refl) h (AllMatch-set buf refs j Mode.leaving h.match_all e)
        (λ k. ground (arith, h.counted k, total-set (refers k) refs j (to_mode Mode.leaving r) e))
        (λ k. ground (
          arith,
          h.locks k,
          has_lock,
          holder-locked j r e has_lock,
          total-set (holds k) refs j (to_mode Mode.leaving r) e,
        ))

  pub fill-BufsSound : (i : ℕ) → BufsSound (update buf i (record (buf i) { valid = true })) refs
  fill-BufsSound i =
      BufsSound-update i _ (refl, refl) h h.match_all (λ k. ground (arith, h.counted k))
        (λ k. ground (arith, h.locks k))

  -- A buffer that nobody refers to, made the one for a block that no buffer has.
  pub recycle-BufsSound :
      (dev blockno i : ℕ)
      → i < nbuf
      → dev ≢ 0
      → (buf i).refcnt ≡ 0
      → ((k : ℕ) → k < nbuf → is_for dev blockno (buf k) ≡ false)
      → BufsSound
          (update buf i
            (record (buf i) { dev = dev; blockno = blockno; valid = false; refcnt = 1 }))
          (record { slot = i; dev = dev; blockno = blockno; mode = Mode.waiting } ∷ refs)
  recycle-BufsSound dev blockno i il d free new = record {
    counted = λ k. ground (arith, h.counted k, h.counted i, free);
    match_all = (
      ground (arith, il, d),
      AllMatch-recycle buf i _ refs (omega (arith, h.counted i, free)) h.match_all,
    );
    locks = λ k. ground (arith, h.locks k);
    unique = λ j k jl kl dj same. ground (arith, h.unique j k jl kl, new j jl, new k kl, dj, same);
  }
