-- ===== src/Screen/Scrolling.antt =====
-- The scrolling at the start of `refresh` in bbssrc/src/screen.c: the lines that `scroll` and `rscroll` have
-- put off.
use firebird_bbs.Base.{
  ℕ, zero, suc, ◌+◌, ◌-◌, ◌<◌, ◌≡◌, refl, ap, true, false, ltb, ◌==◌, if◌then◌else◌, arith,
  Bool-cases, inl, inr,
}
use firebird_bbs.Screen.{Setup, Count, pos, negsuc}
use firebird_bbs.Screen.Terminal.{Command, newline, scroll_back, Terminal}
use firebird_bbs.Screen.Refresh.{Pen, emit, emit_all, go, scroll_lines}
use firebird_bbs.Screen.Pens.{Shown, Shown-ext, newline_end-Shown, scroll_back-Shown}
use firebird_bbs.Screen.Going.{Placed, Went, Went-Placed, go-Went}

-- What a terminal of `height` lines that shows `f` is to show after the scrolling that has been put off.
abbrev pub will : ℕ → Count → (ℕ → ℕ → ℕ) → ℕ → ℕ → ℕ
will height (pos n) f a k = if ltb (a + n) height then f (a + n) k else b' '
will height (negsuc n) f a k = if ltb n a then f (a - (n + 1)) k else b' '

-- Which line of it that is, where lines that leave at one end come in at the other.
abbrev pub source_of : ℕ → Count → ℕ → ℕ
source_of height (pos n) a = if ltb (a + n) height then a + n else a + n - height
source_of height (negsuc n) a = if ltb n a then a - (n + 1) else a + height - (n + 1)

pub will_none :
    (height : ℕ) (f : ℕ → ℕ → ℕ) (i k : ℕ) → i < height → f i k ≡ will height (pos 0) f i k
will_none height f i k h =
    let q : ltb (i + 0) height ≡ true = ground arith in rw q (ap (λ a. f a k) (omega arith))

module _ (t : Setup) (term : Terminal t.t_lines t.t_columns) (start : term.T) where
  more :
      (p : Pen) (f g : ℕ → ℕ → ℕ) (x y : ℕ) (c : Command)
      → Shown t term start (emit p c) g x y
      → Went t term start p f x y
      → Went t term start (emit p c) g x y
  unfolding emit
  more p f g x y c s w = record { shown = s; to_col = w.to_col; to_line = w.to_line }

  Went-ext :
      (p : Pen) (f g : ℕ → ℕ → ℕ) (x y : ℕ)
      → ((i k : ℕ) → i < t.t_lines → f i k ≡ g i k)
      → Went t term start p f x y
      → Went t term start p g x y
  Went-ext p f g x y e w = record {
    shown = Shown-ext t term start p f g x y e w.shown;
    to_col = w.to_col;
    to_line = w.to_line;
  }

  forwards-Went :
      (n : ℕ) (p : Pen) (f : ℕ → ℕ → ℕ) (x y : ℕ)
      → y + 1 ≡ t.t_lines
      → Went t term start p f x y
      → Went t term start (emit_all n p newline) (will t.t_lines (pos n) f) x y
  unfolding emit_all
  forwards-Went zero p f x y e w = Went-ext p f _ x y (will_none t.t_lines f) w
  forwards-Went (suc n) p f x y e w =
      Went-ext _ _ _ x y
        (λ i k h. elim (Bool-cases (ltb (i + suc n) t.t_lines)) [
          | inl q ↦
              let q1 : ltb (i + n) t.t_lines ≡ true = ground arith in
              let q2 : (i + n == y) ≡ false = ground arith in
              rw (q, q1, q2) (ap (λ a. f a k) (omega arith))
          | inr q ↦ elim (Bool-cases (ltb (i + n) t.t_lines)) [
            | inl q1 ↦ let q2 : (i + n == y) ≡ true = ground arith in rw (q, q1, q2) refl
            | inr q1 ↦ rw (q, q1) refl
          ]
        ])
        (forwards-Went n (emit p newline) (λ i k. if i == y then b' ' else f (i + 1) k) x y e
          (more p f _ x y newline (newline_end-Shown t term start p f x y e w.shown) w))

  backwards-Went :
      (n : ℕ) (p : Pen) (f : ℕ → ℕ → ℕ) (x : ℕ)
      → Went t term start p f x 0
      → Went t term start (emit_all (suc n) p scroll_back) (will t.t_lines (negsuc n) f) x 0
  unfolding emit_all
  backwards-Went zero p f x w =
      Went-ext (emit p scroll_back) (λ i k. if i == 0 then b' ' else f (i - 1) k) _ x 0
        (λ i k h. elim (Bool-cases (i == 0)) [
          | inl q ↦ let q1 : ltb 0 i ≡ false = ground arith in rw (q, q1) refl
          | inr q ↦ let q1 : ltb 0 i ≡ true = ground arith in rw (q, q1) refl
        ])
        (more p f _ x 0 scroll_back (scroll_back-Shown t term start p f x w.shown) w)
  backwards-Went (suc n) p f x w =
      Went-ext _ _ _ x 0
        (λ i k h. elim (Bool-cases (ltb (suc n) i)) [
          | inl q ↦
              let q1 : ltb n i ≡ true = ground arith in
              let q2 : (i - (n + 1) == 0) ≡ false = ground arith in
              rw (q, q1, q2) (ap (λ a. f a k) (omega arith))
          | inr q ↦ elim (Bool-cases (ltb n i)) [
            | inl q1 ↦ let q2 : (i - (n + 1) == 0) ≡ true = ground arith in rw (q, q1, q2) refl
            | inr q1 ↦ rw (q, q1) refl
          ]
        ])
        (backwards-Went n (emit p scroll_back) (λ i k. if i == 0 then b' ' else f (i - 1) k) x
          (more p f _ x 0 scroll_back (scroll_back-Shown t term start p f x w.shown) w))

  pub scroll_lines-Placed :
      (n : Count) (p : Pen) (f : ℕ → ℕ → ℕ)
      → Placed t term start p f
      → Placed t term start (scroll_lines t n p) (will t.t_lines n f)
  unfolding scroll_lines
  scroll_lines-Placed (pos zero) p f s = record {
    shown = Shown-ext t term start p f _ p.tc_col p.tc_line (will_none t.t_lines f) s.shown;
    col_in = s.col_in;
    line_in = s.line_in;
  }
  scroll_lines-Placed (pos (suc n)) p f s =
      let x : 0 < t.t_columns = omega (arith, s.col_in) in
      let y : t.t_lines - 1 < t.t_lines = omega (arith, s.line_in) in
      let w = go-Went t term start p f 0 (t.t_lines - 1) x y s in
      Went-Placed t term start _ _ 0 (t.t_lines - 1) x y
        (forwards-Went (suc n) (go t p 0 (t.t_lines - 1)) f 0 (t.t_lines - 1) (omega arith) w)
  scroll_lines-Placed (negsuc n) p f s =
      let x : 0 < t.t_columns = omega (arith, s.col_in) in
      let y : 0 < t.t_lines = omega (arith, s.line_in) in
      let w = go-Went t term start p f 0 0 x y s in
      Went-Placed t term start _ _ 0 0 x y (backwards-Went n (go t p 0 0) f 0 w)
