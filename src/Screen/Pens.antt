-- ===== src/Screen/Pens.antt =====
-- What the commands of bbssrc/src/screen.c make a terminal show.
use firebird_bbs.Base.{
  ℕ, zero, suc, ◌+◌, ◌-◌, ◌<◌, ◌≡◌, sym, ap, ◌∙◌, subst, true, ◌&&◌, [], ◌∷◌, ltb, leb, ◌==◌,
  ==_iff, if◌then◌else◌, arith, Bool-cases, inl, inr,
}
use firebird_bbs.Screen.{Setup}
use firebird_bbs.Screen.Terminal.{
  Command, send_char, newline, carriage_return, cursor_left, cursor_to, clear_all, clear_eol,
  scroll_back, stand_up, stand_down, Terminal, run, run-append,
}
use firebird_bbs.Screen.Refresh.{Pen, emit, output}

-- One place is changed.
abbrev pub dot : (ℕ → ℕ → ℕ) → ℕ → ℕ → ℕ → ℕ → ℕ → ℕ
dot f y x c i k = if i == y && k == x then c else f i k

-- The places of line `y` from `from` to below `to` show `cells`.
abbrev pub paint : (ℕ → ℕ → ℕ) → ℕ → ℕ → ℕ → (ℕ → ℕ) → ℕ → ℕ → ℕ
paint f y from to cells i k = if i == y && leb from k && ltb k to then cells k else f i k

abbrev pub wipe : (ℕ → ℕ → ℕ) → ℕ → ℕ → ℕ → ℕ → ℕ
wipe f y x i k = if i == y && leb x k then b' ' else f i k

module _ (t : Setup) (term : Terminal t.t_lines t.t_columns) (start : term.T) where
  -- The terminal, once it has got what a pen has sent.
  abbrev pub view : Pen → term.T
  view p = run t.t_lines t.t_columns term p.sent start

  -- The terminal shows `f`, and its cursor is at column `x` of line `y`, where the program takes it to
  -- be.
  pub record Shown (p : Pen) (f : ℕ → ℕ → ℕ) (x y : ℕ) : Type 0 where
    pub all : (i k : ℕ) → i < t.t_lines → term.shown (view p) i k ≡ f i k
    pub line : term.line (view p) ≡ y
    pub col : term.col (view p) ≡ x

  view-emit : (p : Pen) (c : Command) → view (emit p c) ≡ term.step c (view p)
  unfolding emit
  view-emit p c = run-append t.t_lines t.t_columns term p.sent (c ∷ []) start

  pub Shown-ext :
      (p : Pen) (f g : ℕ → ℕ → ℕ) (x y : ℕ)
      → ((i k : ℕ) → i < t.t_lines → f i k ≡ g i k)
      → Shown p f x y
      → Shown p g x y
  Shown-ext p f g x y h s = record {
    all = λ i k in_i. s.all i k in_i ∙ h i k in_i;
    line = s.line;
    col = s.col;
  }

  -- A command that leaves what is shown alone.
  quiet :
      (p : Pen) (c : Command) (f : ℕ → ℕ → ℕ) (x y x' y' : ℕ)
      → ((i k : ℕ) → term.shown (term.step c (view p)) i k ≡ term.shown (view p) i k)
      → term.line (term.step c (view p)) ≡ y'
      → term.col (term.step c (view p)) ≡ x'
      → Shown p f x y
      → Shown (emit p c) f x' y'
  quiet p c f x y x' y' a l k s = record {
    all = λ i j h. ap (λ v. term.shown v i j) (view-emit p c) ∙ a i j ∙ s.all i j h;
    line = ap term.line (view-emit p c) ∙ l;
    col = ap term.col (view-emit p c) ∙ k;
  }

  send_char-Shown :
      (p : Pen) (f : ℕ → ℕ → ℕ) (x y c : ℕ)
      → x + 1 < t.t_columns
      → Shown p f x y
      → Shown (emit p (send_char c)) (dot f y x c) (x + 1) y
  send_char-Shown p f x y c inside s =
      let v = view p in
      let (l, k) = term.char_step c v (omega (arith, s.col)) in
      record {
        all = λ i j h. ap (λ w. term.shown w i j) (view-emit p (send_char c)) ∙ place i j h;
        line = ap term.line (view-emit p (send_char c)) ∙ l ∙ s.line;
        col = ap term.col (view-emit p (send_char c)) ∙ k ∙ ap (λ n. n + 1) s.col;
      }
    where
      place :
          (i j : ℕ)
          → i < t.t_lines
          → term.shown (term.step (send_char c) (view p)) i j ≡ dot f y x c i j
      place i j h = elim (Bool-cases (i == y)) [
        | inr off ↦ rw off (
            term.char_line c (view p) i j
              (λ e. absurd (let q : (i == y) ≡ true = (==_iff i y).1 (e ∙ s.line) in cc))
            ∙ s.all i j h)
        | inl here ↦ elim (Bool-cases (j == x)) [
          | inr off ↦
              rw (here, off)
                (term.char_col c (view p) i j
                    (λ e. absurd (let q : (j == x) ≡ true = (==_iff j x).1 (e ∙ s.col) in cc))
                  ∙ s.all i j h)
          | inl same ↦
              rw (here, same)
                (ap (λ a. term.shown (term.step (send_char c) (view p)) a j)
                    ((==_iff i y).0 here ∙ sym s.line)
                  ∙ ap (term.shown (term.step (send_char c) (view p)) (term.line (view p)))
                      ((==_iff j x).0 same ∙ sym s.col)
                  ∙ term.char_here c (view p) (omega (arith, s.col)))
        ]
      ]

  pub clear_eol-Shown :
      (p : Pen) (f : ℕ → ℕ → ℕ) (x y : ℕ)
      → Shown p f x y
      → Shown (emit p clear_eol) (wipe f y x) x y
  clear_eol-Shown p f x y s =
      let (l, k) = term.clear_eol_at (view p) in
      record {
        all = λ i j h. ap (λ w. term.shown w i j) (view-emit p clear_eol) ∙ place i j h;
        line = ap term.line (view-emit p clear_eol) ∙ l ∙ s.line;
        col = ap term.col (view-emit p clear_eol) ∙ k ∙ s.col;
      }
    where
      place :
          (i j : ℕ) → i < t.t_lines → term.shown (term.step clear_eol (view p)) i j ≡ wipe f y x i j
      place i j h = elim (Bool-cases (i == y)) [
        | inr off ↦ rw off (
            term.clear_eol_line (view p) i j
              (λ e. absurd (let q : (i == y) ≡ true = (==_iff i y).1 (e ∙ s.line) in cc))
            ∙ s.all i j h)
        | inl here ↦ elim (Bool-cases (leb x j)) [
          | inr off ↦
              rw (here, off)
                (term.clear_eol_before (view p) i j (let q = s.col in ground arith) ∙ s.all i j h)
          | inl behind ↦
              rw (here, behind)
                (ap (λ a. term.shown (term.step clear_eol (view p)) a j)
                    ((==_iff i y).0 here ∙ sym s.line)
                  ∙ term.clear_eol_behind (view p) j (let q = s.col in ground arith))
        ]
      ]

  pub stand_up-Shown :
      (p : Pen) (f : ℕ → ℕ → ℕ) (x y : ℕ) → Shown p f x y → Shown (emit p stand_up) f x y
  stand_up-Shown p f x y s =
      let (a, l, k) = term.stand_up_to (view p) in
      quiet p stand_up f x y x y a (l ∙ s.line) (k ∙ s.col) s

  pub stand_down-Shown :
      (p : Pen) (f : ℕ → ℕ → ℕ) (x y : ℕ) → Shown p f x y → Shown (emit p stand_down) f x y
  stand_down-Shown p f x y s =
      let (a, l, k) = term.stand_down_to (view p) in
      quiet p stand_down f x y x y a (l ∙ s.line) (k ∙ s.col) s

  pub clear_all-Shown : (p : Pen) → Shown (emit p clear_all) (λ i k. b' ') 0 0
  clear_all-Shown p =
      let (a, l, k) = term.clear_all_to (view p) in
      record {
        all = λ i j h. ap (λ v. term.shown v i j) (view-emit p clear_all) ∙ a i j;
        line = ap term.line (view-emit p clear_all) ∙ l;
        col = ap term.col (view-emit p clear_all) ∙ k;
      }

  pub output-Shown :
      (n : ℕ) (p : Pen) (f : ℕ → ℕ → ℕ) (cells : ℕ → ℕ) (from y : ℕ)
      → from + n < t.t_columns
      → Shown p f from y
      → Shown (output p cells from n) (paint f y from (from + n) cells) (from + n) y
  unfolding output
  output-Shown zero p f cells from y inside s =
      subst (λ x. Shown p (paint f y from (from + 0) cells) x y) (omega arith)
        (Shown-ext p f (paint f y from (from + 0) cells) from y (λ i k h. ground arith) s)
  output-Shown (suc n) p f cells from y inside s =
      let p1 = emit p (send_char (cells from)) in
      let s1 = send_char-Shown p f from y (cells from) (omega arith) s in
      let s2 = output-Shown n p1 (dot f y from (cells from)) cells (from + 1) y (omega arith) s1 in
      subst (λ x. Shown (output p1 cells (from + 1) n) (paint f y from (from + suc n) cells) x y)
        (omega arith)
        (Shown-ext (output p1 cells (from + 1) n) _ (paint f y from (from + suc n) cells)
          (from + 1 + n) y (λ i k h. place i k) s2)
    where
      place :
          (i k : ℕ)
          → paint (dot f y from (cells from)) y (from + 1) (from + 1 + n) cells i k
            ≡ paint f y from (from + suc n) cells i k
      place i k = elim (Bool-cases (k == from)) [
        | inl e ↦ let q : k ≡ from = (==_iff k from).0 e in rw q (ground arith)
        | inr e ↦ ground arith
      ]

  pub newline-Shown :
      (p : Pen) (f : ℕ → ℕ → ℕ) (x y : ℕ)
      → y + 1 < t.t_lines
      → Shown p f x y
      → Shown (emit p newline) f x (y + 1)
  newline-Shown p f x y h s =
      let (a, l, k) = term.newline_down (view p) (omega (arith, s.line)) in
      quiet p newline f x y x (y + 1) a (l ∙ ap (λ n. n + 1) s.line) (k ∙ s.col) s

  pub carriage_return-Shown :
      (p : Pen) (f : ℕ → ℕ → ℕ) (x y : ℕ) → Shown p f x y → Shown (emit p carriage_return) f 0 y
  carriage_return-Shown p f x y s =
      let (a, l, k) = term.carriage_return_to (view p) in
      quiet p carriage_return f x y 0 y a (l ∙ s.line) k s

  pub cursor_left-Shown :
      (p : Pen) (f : ℕ → ℕ → ℕ) (x y : ℕ) → Shown p f (x + 1) y → Shown (emit p cursor_left) f x y
  cursor_left-Shown p f x y s =
      let (a, l, k) = term.backspace_to (view p) (omega (arith, s.col)) in
      quiet p cursor_left f (x + 1) y x y a (l ∙ s.line) (omega (arith, k, s.col)) s

  pub cursor_to-Shown :
      (p : Pen) (f : ℕ → ℕ → ℕ) (a b x y : ℕ)
      → x < t.t_columns
      → y < t.t_lines
      → Shown p f a b
      → Shown (emit p (cursor_to x y)) f x y
  cursor_to-Shown p f a b x y c h s =
      let (same, l, k) = term.move_to_at (view p) x y c h in
      quiet p (cursor_to x y) f a b x y same l k s

  pub newline_end-Shown :
      (p : Pen) (f : ℕ → ℕ → ℕ) (x y : ℕ)
      → y + 1 ≡ t.t_lines
      → Shown p f x y
      → Shown (emit p newline) (λ i k. if i == y then b' ' else f (i + 1) k) x y
  newline_end-Shown p f x y e s =
      let (up, new, l, k) = term.newline_end (view p) (omega (arith, s.line)) in
      record {
        all = λ i j h.
            ap (λ w. term.shown w i j) (view-emit p newline) ∙ elim (Bool-cases (i == y)) [
              | inl last ↦ rw last (
                  ap (λ a. term.shown (term.step newline (view p)) a j)
                    ((==_iff i y).0 last ∙ sym s.line)
                  ∙ new j)
              | inr other ↦
                  let inside : i + 1 < t.t_lines = ground arith in
                  rw other (up i j inside ∙ s.all (i + 1) j inside)
            ];
        line = ap term.line (view-emit p newline) ∙ l ∙ s.line;
        col = ap term.col (view-emit p newline) ∙ k ∙ s.col;
      }

  pub scroll_back-Shown :
      (p : Pen) (f : ℕ → ℕ → ℕ) (x : ℕ)
      → Shown p f x 0
      → Shown (emit p scroll_back) (λ i k. if i == 0 then b' ' else f (i - 1) k) x 0
  scroll_back-Shown p f x s =
      let (down, new, l, k) = term.scroll_back_to (view p) s.line in
      record {
        all = λ i j h.
            ap (λ w. term.shown w i j) (view-emit p scroll_back) ∙ elim (Bool-cases (i == 0)) [
              | inl top ↦ rw top (
                  ap (λ a. term.shown (term.step scroll_back (view p)) a j) ((==_iff i 0).0 top)
                  ∙ new j)
              | inr other ↦
                  let e : i ≡ i - 1 + 1 = ground arith in
                  rw other (
                    ap (λ a. term.shown (term.step scroll_back (view p)) a j) e
                    ∙ down (i - 1) j
                    ∙ s.all (i - 1) j (omega arith))
            ];
        line = ap term.line (view-emit p scroll_back) ∙ l;
        col = ap term.col (view-emit p scroll_back) ∙ k ∙ s.col;
      }
