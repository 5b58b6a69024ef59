-- ===== src/Console/Reads.antt =====
-- kernel/console.c: `consoleread` against the sequence of characters that are ready.
use os_assignment.Prelude.{
  ℕ, zero, suc, ◌+◌, ◌-◌, ◌%◌, ◌^◌, ◌≡◌, ◌≢◌, refl, ap, ◌∙◌, inl, inr, Bool, List, [], ◌∷◌, ◌==◌,
  ltb, arith, Bool-cases,
}
use os_assignment.Console.{
  Console, input_buf, control, up, down, distance, Taken, deliver, ends, read_loop,
}
use os_assignment.Console.Ring.{span, ready, line, IsValid, span_congr}
use os_assignment.Console.Editor.{Read, ended, gets, read}
use os_assignment.Console.Keys.{view, editor_eq}

-- The ring without its oldest character.
abbrev taken : Console → Console
taken s = record s { r = up s.r }

module _ (s : Console) (v : IsValid s) (more : s.r ≢ s.w) where
  fewer : distance s.r s.w ≡ suc (distance (up s.r) s.w)
  fewer = omega (arith, v.r_word, v.w_word, more)

  ready-taken : ready s ≡ s.buf (s.r % input_buf) ∷ ready (taken s)
  ready-taken =
      ap (λ k. span s.buf s.r k) fewer
      ∙ ap (λ cs. s.buf (s.r % input_buf) ∷ cs)
          (span_congr s.buf (s.r + 1) (up s.r) (distance (up s.r) s.w) (omega arith))

  taken-IsValid : IsValid (taken s)
  taken-IsValid = record {
    r_word = omega arith;
    w_word = v.w_word;
    e_word = v.e_word;
    order = omega (arith, fewer, v.order, v.fits, v.r_word, v.e_word);
    fits = omega (arith, fewer, v.order, v.fits, v.r_word, v.e_word);
    open_line = v.open_line;
  }

-- The code's result, the one on sequences, and the console before.
pub record Agrees (x : Taken) (y : Read) (s : Console) : Type 0 where
  pub stop : x.stop ≡ y.stop
  pub got : x.got ≡ y.got
  pub lost : x.lost ≡ y.lost
  pub viewed : view x.console ≡ record { ready = y.rest; line = line s; echo = s.echo }
  pub valid : IsValid x.console

put_back : (s : Console) → IsValid s → record s { r = down (up s.r) } ≡ s
put_back s v =
    let same : down (up s.r) ≡ s.r = omega (arith, v.r_word) in ap (λ k. record s { r = k }) same

ends-Agrees :
    (n : ℕ) (s : Console) (lost : List ℕ)
    → IsValid s
    → Agrees (ends n s lost) (ended n lost (ready s)) s
ends-Agrees n s lost v = record { stop = refl; got = refl; lost = refl; viewed = refl; valid = v }

deliver-Agrees :
    (c : ℕ) {x : Taken} {y : Read} {s t : Console}
    → line t ≡ line s
    → t.echo ≡ s.echo
    → Agrees x y t
    → Agrees (deliver c x) (gets c y) s
deliver-Agrees c e o h = record {
  stop = h.stop;
  got = ap (λ cs. c ∷ cs) h.got;
  lost = h.lost;
  viewed = h.viewed ∙ editor_eq refl e o;
  valid = h.valid;
}

-- A stretch of `consoleread` takes from the ring what a read takes from the sequence of characters
-- that are ready, and touches neither the line that is being edited nor the screen.
pub read_loop-Agrees :
    (was_killed : Bool) (copyout : ℕ → Bool) (target left dst : ℕ) (s : Console)
    → IsValid s
    → Agrees
        (read_loop was_killed copyout target left dst s)
        (read was_killed copyout target left dst (ready s))
        s
unfolding read_loop read
read_loop-Agrees was_killed copyout target zero dst s v = ends-Agrees target s [] v
read_loop-Agrees was_killed copyout target (suc left) dst s v = elim (Bool-cases (s.r == s.w)) [
  | inl none_left ↦
      let nothing : distance s.r s.w ≡ 0 = ground (arith, none_left, v.w_word) in
      let empty : ready s ≡ [] = ap (λ k. span s.buf s.r k) nothing in
      rw (none_left, empty)
        (record {
          stop = refl;
          got = refl;
          lost = refl;
          viewed = editor_eq empty refl refl;
          valid = v;
        })
  | inr some_left ↦
      let more : s.r ≢ s.w = ground (arith, some_left) in
      let w : IsValid (taken s) = taken-IsValid s v more in
      let c : ℕ = s.buf (s.r % input_buf) in
      rw (some_left, ready-taken s v more)
        (elim (Bool-cases (c == control b'D')) [
          | inl mark ↦ rw mark (elim (Bool-cases (ltb (suc left) target)) [
            | inl later ↦
                rw (later, put_back s v)
                  (record {
                    stop = refl;
                    got = refl;
                    lost = refl;
                    viewed = editor_eq (ready-taken s v more) refl refl;
                    valid = v;
                  })
            | inr now ↦
                rw now (record { stop = refl; got = refl; lost = refl; viewed = refl; valid = w })
          ])
          | inr char ↦ rw char (elim (Bool-cases (copyout dst)) [
            | inr fault ↦
                rw fault (record { stop = refl; got = refl; lost = refl; viewed = refl; valid = w })
            | inl fine ↦ rw fine (elim (Bool-cases (c == b'\n')) [
              | inl newline ↦ rw newline (
                  deliver-Agrees c {s = s} {t = taken s} refl refl
                    (ends-Agrees (target - left) (taken s) [] w))
              | inr other ↦ rw other (
                  deliver-Agrees c {s = s} {t = taken s} refl refl (
                    read_loop-Agrees was_killed copyout target left ((dst + 1) % 2 ^ 64) (taken s)
                      w))
            ])
          ])
        ])
]
