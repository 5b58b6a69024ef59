-- ===== src/Console/Keys.antt =====
-- kernel/console.c: what `consoleintr` does to the line.
use os_assignment.Prelude.{
  ℕ, zero, suc, ◌+◌, ◌%◌, ◌<◌, ◌≡◌, ◌≢◌, refl, ap, sym, ◌∙◌, false, List, [], ◌∷◌, ◌++◌, ◌==◌,
  arith, length, update,
}
use mathlib.Core.Path.{ap₂, subst}
use mathlib.Core.List.{append-nil, append_assoc}
use os_assignment.Console.{Console, input_buf, down, distance, consputc, erase, kill_line}
use os_assignment.Console.Ring.{
  span, ready, line, NoNewline, IsValid, length-span, span_congr, span-add, span-update,
  NoNewline-append,
}
use os_assignment.Console.Editor.{Editor, rub_out, drop_last}

abbrev pub view : Console → Editor
view s = record { ready = ready s; line = line s; echo = s.echo }

erase_lem : (s : Console) → erase s ≡ record s { e = down s.e; echo = s.echo ++ rub_out 1 }
unfolding erase consputc
erase_lem s = refl

-- The last character of the line.
abbrev pub last : Console → ℕ
last s = s.buf (down s.e % input_buf)

pub line-last :
    (s : Console) (n : ℕ)
    → IsValid s
    → distance s.w s.e ≡ suc n
    → line s ≡ span s.buf s.w n ++ (last s ∷ [])
line-last s n v h =
    let count : distance s.w s.e ≡ n + 1 = omega (arith, h) in
    ap (λ k. span s.buf s.w k) count
    ∙ span-add s.buf s.w n 1
    ∙ ap (λ cs. span s.buf s.w n ++ cs)
        (span_congr s.buf (s.w + n) (down s.e) 1 (omega (arith, h, v.w_word, v.e_word)))

module _ (s : Console) (n : ℕ) (v : IsValid s) (h : distance s.w s.e ≡ suc n) where
  pub shorter : distance s.w (down s.e) ≡ n
  shorter = omega (arith, h, v.w_word, v.e_word)

  pub line-open : NoNewline (span s.buf s.w n) × NoNewline (last s ∷ [])
  line-open = NoNewline-append _ _ (subst NoNewline (line-last s n v h) v.open_line)

  pub line-erase : line (erase s) ≡ span s.buf s.w n
  unfolding erase consputc
  line-erase = ap (λ k. span s.buf s.w k) shorter

  pub erase-IsValid : IsValid (erase s)
  unfolding erase consputc
  erase-IsValid = record {
    r_word = v.r_word;
    w_word = v.w_word;
    e_word = omega arith;
    order = omega (arith, h, v.order, v.fits, v.r_word, v.w_word, v.e_word);
    fits = omega (arith, h, v.order, v.fits, v.r_word, v.w_word, v.e_word);
    open_line = subst NoNewline (sym line-erase) line-open.0;
  }

pub not_equal : (s : Console) → IsValid s → distance s.w s.e ≢ 0 → (s.e == s.w) ≡ false
not_equal s v h = ground (arith, h, v.w_word, v.e_word)

pub equal : (s : Console) → IsValid s → distance s.w s.e ≡ 0 → s.e ≡ s.w
equal s v h = omega (arith, h, v.w_word, v.e_word)

-- `C('U')` rubs out the whole line: it has no newline in it.
pub kill_line_lem :
    (n : ℕ) (s : Console)
    → IsValid s
    → distance s.w s.e ≡ n
    → kill_line n s ≡ record s { e = s.w; echo = s.echo ++ rub_out n }
unfolding kill_line erase consputc
kill_line_lem zero s v h = rw (equal s v h, append-nil s.echo) refl
kill_line_lem (suc n) s v h =
    let more : (s.e == s.w) ≡ false = not_equal s v (omega (arith, h)) in
    let inside : (last s == b'\n') ≡ false = ground (arith, (line-open s n v h).1.0) in
    rw (more, inside)
      (kill_line_lem n (erase s) (erase-IsValid s n v h) (shorter s n v h)
        ∙ ap (λ cs. record s { e = s.w; echo = cs }) (append_assoc s.echo (rub_out 1) (rub_out n)))

abbrev pub editor : (ready line echo : List ℕ) → Editor
editor r l o = record { ready = r; line = l; echo = o }

pub editor_eq :
    {r r' l l' o o' : List ℕ} → r ≡ r' → l ≡ l' → o ≡ o' → editor r l o ≡ editor r' l' o'
editor_eq p q k = rw (p, q, k) refl

pub kill_line-view :
    (s : Console)
    → IsValid s
    → view (record s { e = s.w; echo = s.echo ++ rub_out (distance s.w s.e) })
      ≡ record { ready = ready s; line = []; echo = s.echo ++ rub_out (length (line s)) }
kill_line-view s v =
    let none_left : distance s.w s.w ≡ 0 = omega (arith, v.w_word) in
    editor_eq refl (ap (λ k. span s.buf s.w k) none_left)
      (ap (λ k. s.echo ++ rub_out k) (sym (length-span s.buf s.w (distance s.w s.e))))

pub drop_last-append : (cs : List ℕ) (c : ℕ) → drop_last (cs ++ (c ∷ [])) ≡ cs
drop_last-append [] c = refl
drop_last-append (d ∷ []) c = refl
drop_last-append (d ∷ e ∷ cs) c = ap (λ ds. d ∷ ds) (drop_last-append (e ∷ cs) c)

-- A stored character is the last one of the line.
pub line-put :
    (s : Console) (c : ℕ)
    → IsValid s
    → distance s.r s.e < input_buf
    → span (update s.buf (s.e % input_buf) c) s.w (distance s.w s.e + 1) ≡ line s ++ (c ∷ [])
line-put s c v h =
    let n : ℕ = distance s.w s.e in
    let at : (s.w + n) % input_buf ≡ s.e % input_buf = omega (arith, v.w_word, v.e_word) in
    let below : n < input_buf = omega (arith, v.order, h) in
    span-add (update s.buf (s.e % input_buf) c) s.w n 1
    ∙ ap₂ ◌++◌
        (ap (λ k. span (update s.buf k c) s.w n) (sym at)
          ∙ span-update s.buf s.w n n c (omega arith) below)
        (ground (arith, at))

pub ready-put :
    (s : Console) (c : ℕ)
    → IsValid s
    → distance s.r s.e < input_buf
    → span (update s.buf (s.e % input_buf) c) s.r (distance s.r s.w) ≡ ready s
ready-put s c v h =
    let m : ℕ = distance s.r s.e in
    let at : (s.r + m) % input_buf ≡ s.e % input_buf = omega (arith, v.r_word, v.e_word) in
    ap (λ k. span (update s.buf k c) s.r (distance s.r s.w)) (sym at)
    ∙ span-update s.buf s.r m (distance s.r s.w) c (omega (arith, v.order)) h
