-- ===== src/Console/Edits.antt =====
-- kernel/console.c: `consoleintr` against the line editor.
use os_assignment.Prelude.{
  ℕ, zero, suc, ◌<◌, ◌≡◌, refl, ap, sym, ◌∙◌, inl, inr, ◌⊎◌, true, false, not, ◌&&◌, ◌||◌, List, [],
  ◌∷◌, ◌++◌, ◌==◌, ltb, arith, length, if◌then◌else◌, Bool-cases,
}
use mathlib.Core.Path.{subst}
use mathlib.Core.List.{append-nil}
use os_assignment.Console.{
  Console, input_buf, control, distance, backspace, consputc, erase, kill_line, store, consoleintr,
}
use os_assignment.Console.Ring.{span, ready, line, NoNewline, IsValid}
use os_assignment.Console.Editor.{held, enter, key, rub_one, rub_last, rub_out, drop_last}
use os_assignment.Console.Keys.{
  view, last, editor_eq, line-last, kill_line_lem, kill_line-view, drop_last-append, erase-IsValid,
  line-erase, not_equal, equal,
}
use os_assignment.Console.Store.{Does, not_woken, held-view, store_char}

-- A carriage return counts as a newline.
store_return :
    (s : Console)
    → IsValid s
    → distance s.r s.e < input_buf
    → Does (enter b'\n' (view s)) s (store b'\r' s)
unfolding store
store_return s v h = store_char s b'\n' v h (omega arith) (omega arith)

store_lem :
    (s : Console) (c : ℕ)
    → IsValid s
    → distance s.r s.e < input_buf
    → c < backspace
    → Does (enter (if c == b'\r' then b'\n' else c) (view s)) s (store c s)
store_lem s c v h byte = elim (Bool-cases (c == b'\r')) [
  | inl return ↦ let same : c ≡ b'\r' = ground (arith, return) in rw same (store_return s v h)
  | inr other ↦ rw other (store_char s c v h byte (ground (arith, other)))
]

kill_IsValid : (s : Console) (o : List ℕ) → IsValid s → IsValid (record s { e = s.w; echo = o })
kill_IsValid s o v =
    let none_left : distance s.w s.w ≡ 0 = omega (arith, v.w_word) in
    record {
      r_word = v.r_word;
      w_word = v.w_word;
      e_word = v.w_word;
      order = omega (arith, none_left);
      fits = omega (arith, v.order, v.fits);
      open_line = subst NoNewline (sym (ap (λ k. span s.buf s.w k) none_left)) tt;
    }

rub_line :
    (s : Console)
    → IsValid s
    → Does
        (record { ready = ready s; line = []; echo = s.echo ++ rub_out (length (line s)) })
        s
        (false, kill_line (distance s.w s.e) s)
rub_line s v =
    rw (kill_line_lem (distance s.w s.e) s v refl)
      (record { viewed = kill_line-view s v; valid = kill_IsValid s _ v; wakes = not_woken refl })

count-cases : (n : ℕ) → (n ≡ 0) ⊎ ((m : ℕ) × (n ≡ suc m))
count-cases zero = inl refl
count-cases (suc m) = inr (m, refl)

rub_one-append : (cs : List ℕ) (c : ℕ) → rub_one (cs ++ (c ∷ [])) ≡ rub_out 1
rub_one-append [] c = refl
rub_one-append (d ∷ cs) c = refl

rub_key :
    (s : Console)
    → IsValid s
    → Does (rub_last (view s)) s (false, if not (s.e == s.w) then erase s else s)
unfolding erase consputc
rub_key s v = elim (count-cases (distance s.w s.e)) [
  | inl none_left ↦
      let at_start : (s.e == s.w) ≡ true = ground (arith, equal s v none_left) in
      let nothing : line s ≡ [] = ap (λ k. span s.buf s.w k) none_left in
      rw at_start (record {
        viewed =
            editor_eq refl (nothing ∙ sym (ap drop_last nothing))
              (sym (ap (λ cs. s.echo ++ rub_one cs) nothing ∙ append-nil s.echo));
        valid = v;
        wakes = not_woken refl;
      })
  | inr (n, some_left) ↦
      let further : (s.e == s.w) ≡ false = not_equal s v (omega (arith, some_left)) in
      let parts : line s ≡ span s.buf s.w n ++ (last s ∷ []) = line-last s n v some_left in
      rw further (record {
        viewed =
            editor_eq refl
              (line-erase s n v some_left
                ∙ sym (ap drop_last parts ∙ drop_last-append (span s.buf s.w n) (last s)))
              (sym (
                ap (λ cs. s.echo ++ cs)
                  (ap rub_one parts ∙ rub_one-append (span s.buf s.w n) (last s))));
        valid = erase-IsValid s n v some_left;
        wakes = not_woken refl;
      })
]

fits :
    (s : Console) (c : ℕ)
    → IsValid s
    → (not (c == 0) && ltb (held (view s)) input_buf)
      ≡ (not (c == 0) && ltb (distance s.r s.e) input_buf)
fits s c v = ap (λ k. not (c == 0) && ltb k input_buf) (held-view s v)

same_console : (s : Console) → IsValid s → Does (view s) s (false, s)
same_console s v = record { viewed = refl; valid = v; wakes = not_woken refl }

-- Each key does to the ring what it does to the line editor: its characters, its echo, and the
-- indices stay in order, at most INPUT_BUF apart.
pub consoleintr-Does :
    (c : ℕ) (s : Console) → c < backspace → IsValid s → Does (key c (view s)) s (consoleintr c s)
unfolding consoleintr key
consoleintr-Does c s byte v = elim (Bool-cases (c == control b'P')) [
  | inl print ↦ rw print (same_console s v)
  | inr a ↦ rw a (elim (Bool-cases (c == control b'U')) [
    | inl kill ↦ rw kill (rub_line s v)
    | inr b ↦ rw b (elim (Bool-cases ((c == control b'H') || (c == 127))) [
      | inl rub ↦ rw rub (rub_key s v)
      | inr d ↦ rw d (elim (Bool-cases (not (c == 0) && ltb (distance s.r s.e) input_buf)) [
        | inl room ↦ rw (fits s c v ∙ room, room) (store_lem s c v (ground (arith, room)) byte)
        | inr no_room ↦ rw (fits s c v ∙ no_room, no_room) (same_console s v)
      ])
    ])
  ])
]
