-- ===== src/Console/Store.antt =====
-- kernel/console.c: what `consoleintr` does to a character that it stores.
use os_assignment.Prelude.{
  ℕ, ◌+◌, ◌%◌, ◌^◌, ◌<◌, ◌≡◌, ◌≢◌, refl, ap, sym, ◌∙◌, inl, inr, Bool, true, false, not, ◌||◌, List,
  [], ◌∷◌, ◌++◌, ◌==◌, arith, length, length-append, if◌then◌else◌, update, Bool-cases,
}
use mathlib.Core.Path.{ap₂, subst}
use os_assignment.Console.{Console, input_buf, control, up, distance, backspace, consputc, store}
use os_assignment.Console.Ring.{
  span, ready, line, NoNewline, IsValid, length-span, span_congr, span-add, append-NoNewline,
}
use os_assignment.Console.Editor.{Editor, held, enter}
use os_assignment.Console.Keys.{view, editor_eq, line-put, ready-put}

module _ (s : Console) (c : ℕ) (v : IsValid s) (h : distance s.r s.e < input_buf) where
  abbrev stored : ℕ → ℕ
  stored = update s.buf (s.e % input_buf) c

  longer : distance s.w (up s.e) ≡ distance s.w s.e + 1
  longer = omega (arith, v.w_word, v.e_word, v.order, h)

  -- A character that ends nothing.
  abbrev kept : Console
  kept = record { buf = stored; r = s.r; w = s.w; e = up s.e; echo = s.echo ++ (c ∷ []) }

  line-kept : line kept ≡ line s ++ (c ∷ [])
  line-kept = ap (λ k. span stored s.w k) longer ∙ line-put s c v h

  pub view-kept :
      view kept ≡ record { ready = ready s; line = line s ++ (c ∷ []); echo = s.echo ++ (c ∷ []) }
  view-kept = editor_eq (ready-put s c v h) line-kept refl

  pub kept-IsValid : c ≢ b'\n' → IsValid kept
  kept-IsValid other = record {
    r_word = v.r_word;
    w_word = v.w_word;
    e_word = omega arith;
    order = omega (arith, v.order, h, v.r_word, v.w_word, v.e_word);
    fits = omega (arith, h, v.r_word, v.e_word);
    open_line =
        subst NoNewline (sym line-kept)
          (append-NoNewline (line s) (c ∷ []) v.open_line (other, tt));
  }

  -- A character that hands the line over.
  abbrev handed : Console
  handed = record { buf = stored; r = s.r; w = up s.e; e = up s.e; echo = s.echo ++ (c ∷ []) }

  nothing_left : distance (up s.e) (up s.e) ≡ 0
  nothing_left = omega arith

  ready-handed : ready handed ≡ ready s ++ (line s ++ (c ∷ []))
  ready-handed =
      let count : distance s.r (up s.e) ≡ distance s.r s.w + (distance s.w s.e + 1) =
        omega (arith, v.order, h, v.r_word, v.w_word, v.e_word) in
      ap (λ k. span stored s.r k) count
      ∙ span-add stored s.r (distance s.r s.w) (distance s.w s.e + 1)
      ∙ ap₂ ◌++◌ (ready-put s c v h) (
          span_congr stored (s.r + distance s.r s.w) s.w (distance s.w s.e + 1)
            (omega (arith, v.r_word, v.w_word))
          ∙ line-put s c v h)

  line-handed : line handed ≡ []
  line-handed = ap (λ k. span stored (up s.e) k) nothing_left

  pub view-handed :
      view handed
      ≡ record { ready = ready s ++ (line s ++ (c ∷ [])); line = []; echo = s.echo ++ (c ∷ []) }
  view-handed = editor_eq ready-handed line-handed refl

  pub handed-IsValid : IsValid handed
  handed-IsValid = record {
    r_word = v.r_word;
    w_word = omega arith;
    e_word = omega arith;
    order = omega arith;
    fits = omega (arith, h, v.r_word, v.e_word);
    open_line = subst NoNewline (sym line-handed) tt;
  }

pub held-view : (s : Console) → IsValid s → held (view s) ≡ distance s.r s.e
held-view s v = omega (
  arith,
  v.order,
  length-span s.buf s.r (distance s.r s.w),
  length-span s.buf s.w (distance s.w s.e),
)

-- `cons.e == cons.r+INPUT_BUF`, once the character is in.
fills :
    (s : Console)
    → IsValid s
    → distance s.r s.e < input_buf
    → (up s.e == (s.r + input_buf) % 2 ^ 32) ≡ (held (view s) + 1 == input_buf)
fills s v h = ground (arith, held-view s v, v.r_word, v.e_word)

pub not_woken : {cs ds : List ℕ} → cs ≡ ds → false ≡ not (length cs == length ds)
not_woken e = ground (arith, ap length e)

woken :
    {cs : List ℕ} (ds ls : List ℕ) (c : ℕ)
    → cs ≡ ds ++ (ls ++ (c ∷ []))
    → true ≡ not (length cs == length ds)
woken ds ls c e =
    rw e (ground (arith, length-append ds (ls ++ (c ∷ [])), length-append ls (c ∷ [])))

-- `store` does to the ring what `enter` does to the line.
pub record Does (d : Editor) (s : Console) (out : Bool × Console) : Type 0 where
  pub viewed : view out.1 ≡ d
  pub valid : IsValid out.1
  -- Readers are woken exactly if they get something.
  pub wakes : out.0 ≡ not (length (ready out.1) == length (ready s))

-- On a character after `c = (c == '\r') ? '\n' : c`.
pub store_char :
    (s : Console) (c : ℕ)
    → IsValid s
    → distance s.r s.e < input_buf
    → c < backspace
    → c ≢ b'\r'
    → Does (enter c (view s)) s (store c s)
unfolding store enter consputc
store_char s c v h byte plain =
    let same : (if c == b'\r' then b'\n' else c) ≡ c = ground (arith, plain) in
    let shown : (c == backspace) ≡ false = ground (arith, byte) in
    rw (same, shown, fills s v h)
      (elim (Bool-cases
        ((c == b'\n') || ((c == control b'D') || (held (view s) + 1 == input_buf)))) [
          | inl ends ↦ rw ends (record {
            viewed = view-handed s c v h;
            valid = handed-IsValid s c v h;
            wakes = woken (ready s) (line s) c (ready-handed s c v h);
          })
          | inr goes_on ↦ rw goes_on (record {
            viewed = view-kept s c v h;
            valid = kept-IsValid s c v h (ground (arith, goes_on));
            wakes = not_woken (ready-put s c v h);
          })
        ])
