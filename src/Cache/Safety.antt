-- ===== src/Cache/Safety.antt =====
-- kernel/bio.c: the facts of the cache over the steps of its users.
use os_assignment.Prelude.{
  ℕ, zero, suc, ◌+◌, ◌<◌, ◌≤◌, ◌≡◌, ◌≢◌, inl, inr, refl, ◌∙◌, true, false, none, some, List, [],
  ◌∷◌, ◌==◌, arith, length, get_elem?, Bool-cases, Option-cases, length-set,
}
use mathlib.Core.Path.{subst}
use os_assignment.Prelude.Outcome.{ok, panic}
use os_assignment.Cache.{
  Cache, nbuf, is_for, find_cached, find_unused, bget, bpin, bunpin, recycle, lock_buffer,
  fill_buffer, unlock_buffer, drop_buffer, erase,
}
use os_assignment.Cache.Users.{
  Mode, Ref, rank, System, Use, lock, fill, unlock, give_up, pin, unpin, Event, get, use_at, needs,
  use_ref, step, run, remove_at, to_mode, Allowed, AllAllowed,
}
use os_assignment.Cache.Refs.{AllMatch-at}
use os_assignment.Cache.Search.{
  occurs, find_cached-some, find_cached-none, find_unused-some, find_unused-none, occurs-erase,
  length-erase, length-le-references,
}
use os_assignment.Cache.Sound.{OrderSound, IsCoherent, GoesOn}
use os_assignment.Cache.Steps.{
  count_up-BufsSound, count_down-BufsSound, lock-BufsSound, holder-locked, unlock-BufsSound,
  fill-BufsSound, recycle-BufsSound,
}

OrderSound-move :
    (i : ℕ) (order : List ℕ) → i < nbuf → OrderSound order → OrderSound (i ∷ erase i order)
OrderSound-move i order il o = record {
  listed = λ k. occurs-erase i k order there ∙ o.listed k;
  long = omega (arith, length-erase i order there, o.long);
}
  where
    there : 1 ≤ occurs i order
    there = ground (arith, o.listed i)

length-remove_at :
    (j : ℕ) (rs : List Ref) {r : Ref}
    → get_elem? rs j ≡ some r
    → length (remove_at j rs) + 1 ≡ length rs
length-remove_at j [] e = absurd (cc)
length-remove_at zero (x ∷ rs) e = omega arith
length-remove_at (suc j) (x ∷ rs) e = omega (arith, length-remove_at j rs e)

bget-cached :
    (dev blockno : ℕ) (c : Cache) {i : ℕ}
    → find_cached dev blockno c.buf c.order ≡ some i
    → bget dev blockno c ≡ ok (i, bpin i c)
unfolding bget
bget-cached dev blockno c e = rw (e, bget) refl

pub bget-recycled :
    (dev blockno : ℕ) (c : Cache) {i : ℕ}
    → find_cached dev blockno c.buf c.order ≡ none
    → find_unused c.buf c.order ≡ some i
    → bget dev blockno c ≡ ok (i, recycle dev blockno i c)
unfolding bget
bget-recycled dev blockno c missing e = rw (missing, e, bget) refl

module _ (s : System) (h : IsCoherent s) where
  -- A search of `bget`, when fewer than NBUF references are out.
  get-GoesOn :
      (dev blockno : ℕ) → dev ≢ 0 → length s.refs < nbuf → GoesOn (step (get dev blockno) s)
  unfolding step bpin recycle
  get-GoesOn dev blockno d few =
      elim (Option-cases (find_cached dev blockno s.cache.buf s.cache.order)) [
        | inr (i, e) ↦
            let found : (is_for dev blockno (s.cache.buf i) ≡ true) × (1 ≤ occurs i s.cache.order) =
              find_cached-some dev blockno s.cache.buf s.cache.order e in
            rw (bget-cached dev blockno s.cache e) (
              _,
              refl,
              record {
                few = omega (arith, few);
                bufs =
                    count_up-BufsSound h.bufs
                      (record { slot = i; dev = dev; blockno = blockno; mode = Mode.waiting }) few
                      refl (ground (arith, found, d, h.order.listed i));
                order = h.order;
              },
            )
        | inl missing ↦ elim (Option-cases (find_unused s.cache.buf s.cache.order)) [
          | inr (i, e) ↦
              let found : ((s.cache.buf i).refcnt ≡ 0) × (1 ≤ occurs i s.cache.order) =
                find_unused-some s.cache.buf s.cache.order e in
              rw (bget-recycled dev blockno s.cache missing e) (
                _,
                refl,
                record {
                  few = omega (arith, few);
                  bufs =
                      recycle-BufsSound h.bufs dev blockno i
                        (ground (arith, found, h.order.listed i)) d found.0
                        (λ k kl.
                          find_cached-none dev blockno s.cache.buf s.cache.order k missing
                            (ground (arith, kl, h.order.listed k)));
                  order = h.order;
                },
              )
          | inl none_free ↦ absurd (
              omega (
                arith,
                few,
                h.order.long,
                length-le-references s.cache.order s.refs (λ k. ground (arith, h.order.listed k))
                    (λ k l. omega (
                      arith,
                      h.bufs.counted k,
                      find_unused-none s.cache.buf s.cache.order k none_free l,
                    )),
              ))
        ]
      ]

  give_up-IsCoherent :
      (j : ℕ) (r : Ref)
      → get_elem? s.refs j ≡ some r
      → (rank r.mode == 1) ≡ false
      → IsCoherent (record { cache = drop_buffer r.slot s.cache; refs = remove_at j s.refs })
  unfolding drop_buffer bunpin
  give_up-IsCoherent j r e no_lock =
      elim (Bool-cases (((bunpin r.slot s.cache).buf r.slot).refcnt == 0)) [
        | inl last ↦ rw last (record {
          few = omega (arith, h.few, length-remove_at j s.refs e);
          bufs = count_down-BufsSound h.bufs j r h.few e no_lock;
          order =
              OrderSound-move r.slot s.cache.order
                (AllMatch-at s.cache.buf s.refs j h.bufs.match_all e).0 h.order;
        })
        | inr more ↦ rw more (record {
          few = omega (arith, h.few, length-remove_at j s.refs e);
          bufs = count_down-BufsSound h.bufs j r h.few e no_lock;
          order = h.order;
        })
      ]

  -- Every other step of a thread, in its turn.
  use-GoesOn :
      (u : Use) (j : ℕ) (r : Ref)
      → Allowed (use_at j u) s
      → get_elem? s.refs j ≡ some r
      → (rank r.mode == rank (needs u)) ≡ true
      → GoesOn (use_ref u j r s)
  unfolding use_ref lock_buffer fill_buffer unlock_buffer drop_buffer bpin bunpin
  use-GoesOn lock j r a e fits = elim (Bool-cases (s.cache.buf r.slot).locked) [
    | inl taken ↦ rw (taken, lock_buffer) (s, refl, h)
    | inr free ↦
        rw (free, lock_buffer)
          (
            _,
            refl,
            record {
              few = omega (arith, h.few, length-set s.refs j (to_mode Mode.holding r));
              bufs = lock-BufsSound h.bufs j r e (ground (arith, fits)) free;
              order = h.order;
            },
          )
  ]
  use-GoesOn fill j r a e fits = elim (Bool-cases (s.cache.buf r.slot).valid) [
    | inl filled ↦ rw (filled, fill_buffer) (_, refl, h)
    | inr stale ↦
        rw (stale, fill_buffer)
          (_, refl, record { few = h.few; bufs = fill-BufsSound h.bufs r.slot; order = h.order })
  ]
  use-GoesOn unlock j r a e fits =
      let taken : (s.cache.buf r.slot).locked ≡ true = holder-locked h.bufs j r e fits in
      rw (fits, taken, unlock_buffer)
        (
          _,
          refl,
          record {
            few = omega (arith, h.few, length-set s.refs j (to_mode Mode.leaving r));
            bufs = unlock-BufsSound h.bufs j r e fits;
            order = h.order;
          },
        )
  use-GoesOn give_up j r a e fits = (_, refl, give_up-IsCoherent j r e (ground (arith, fits)))
  use-GoesOn pin j r a e fits = (
    _,
    refl,
    record {
      few = omega (arith, a);
      bufs =
          count_up-BufsSound h.bufs (to_mode Mode.pinned r) a refl
            (AllMatch-at s.cache.buf s.refs j h.bufs.match_all e);
      order = h.order;
    },
  )
  use-GoesOn unpin j r a e fits = (
    _,
    refl,
    record {
      few = omega (arith, h.few, length-remove_at j s.refs e);
      bufs = count_down-BufsSound h.bufs j r h.few e (ground (arith, fits));
      order = h.order;
    },
  )

step-GoesOn : (e : Event) (s : System) → Allowed e s → IsCoherent s → GoesOn (step e s)
unfolding step
step-GoesOn (get dev blockno) s a h = get-GoesOn s h dev blockno a.0 a.1
step-GoesOn (use_at j u) s a h = elim (Option-cases (get_elem? s.refs j)) [
  | inl e ↦ rw (e, step) (s, refl, h)
  | inr (r, e) ↦
      rw (e, step)
        (elim (Bool-cases (rank r.mode == rank (needs u))) [
          | inl fits ↦ rw fits (use-GoesOn s h u j r a e fits)
          | inr other ↦ rw other (s, refl, h)
        ])
]

-- As long as never more than NBUF references are out, and no block of device 0 is asked for, no
-- interleaving of the users of the cache panics, and these facts stay true: `refcnt` of each
-- buffer is the number of references to it, and a buffer that is referred to is for the block that
-- was asked for; a sleeplock is taken exactly while one reference holds it, and never by two; no
-- two buffers are for the same block of a device other than 0; and the list has each buffer once.
pub run-IsCoherent :
    (es : List Event) (s : System) → AllAllowed es s → IsCoherent s → GoesOn (run es s)
unfolding run AllAllowed
run-IsCoherent [] s a h = (s, refl, h)
run-IsCoherent (e ∷ es) s a h =
    let (t, e', h') = step-GoesOn e s a.0 h in
    rw e' (
      run-IsCoherent es t (subst (λ o. elim o [ ok t ↦ AllAllowed es t | panic ↦ Unit ]) e' a.1) h')
