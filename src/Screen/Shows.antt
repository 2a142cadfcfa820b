-- ===== src/Screen/Shows.antt =====
-- What `refresh` and `redoscr` of bbssrc/src/screen.c promise: the terminal shows the picture.
use firebird_bbs.Base.{
  ◌≤◌, ltb, true, ℕ, ◌+◌, ◌%◌, ◌<◌, ◌≡◌, refl, sym, ap, ◌∙◌, subst, fun_ext, Bool, false, ◌&&◌,
  ◌||◌, not, leb, arith, Bool-cases, inl, inr,
}
use firebird_bbs.Screen.{Line, Screen, Setup, Count, pos, row}
use firebird_bbs.Screen.Terminal.{clear_all, Terminal}
use firebird_bbs.Screen.Refresh.{
  Pen, emit, go, rel_move, redo_rows, redoscr, refresh_rows, scroll_lines, size, is_back, repaint,
  refresh,
}
use firebird_bbs.Screen.Pens.{view, clear_all-Shown}
use firebird_bbs.Screen.Going.{Placed, Went-Placed, go-Went}
use firebird_bbs.Screen.Accuracy.{Accurate, Exact}
use firebird_bbs.Screen.Frames.{Frame, Finished}
use firebird_bbs.Screen.Loops.{refresh_rows-Finished, redo_rows-Finished}
use firebird_bbs.Screen.Scrolling.{will, source_of, will_none, scroll_lines-Placed}

module _ (t : Setup) (term : Terminal t.t_lines t.t_columns) (start : term.T) where
  -- The picture and what it takes the terminal to show are in step. `should` is what the terminal is
  -- to show once it has scrolled; until the screen is cleared as a whole, nothing is known of `shows`.
  -- `was` is what the terminal showed for each line of the picture at the last `refresh`.
  pub record Tracks (picture : ℕ → Line) (lns roll : ℕ) (count : Count) (docls : Bool) (p : Pen)
      : Type 0 where
    pub shows : ℕ → ℕ → ℕ
    pub should : ℕ → ℕ → ℕ
    pub height : lns ≡ t.t_lines
    pub turn : roll < lns
    pub short : lns < 256
    pub wide : 0 < t.t_columns
    pub rows : (a : ℕ) → a < lns → Accurate (picture ((a + roll) % lns)) (should a)
    pub narrow : (a : ℕ) → a < lns → (picture ((a + roll) % lns)).len < t.t_columns
    pub placed : docls ≡ false → Placed t term start p shows
    pub told : docls ≡ false → (a k : ℕ) → a < lns → should a k ≡ will t.t_lines count shows a k
    pub was : ℕ → ℕ → ℕ
    pub slots : (a : ℕ) → a < lns → Accurate (picture ((a + roll) % lns)) (was a)
    pub link : docls ≡ false → (a k : ℕ) → a < lns → was a k ≡ shows (source_of lns count a) k
    pub few : docls ≡ false → size count ≤ lns

  abbrev pub InStep : Screen → Pen → Type 0
  InStep s p = Tracks s.picture s.scr_lns s.roll s.scrollcnt s.docls p

  -- The terminal shows the picture, and its cursor is where the program has put it.
  pub record Displayed (s : Screen) (p : Pen) : Type 0 where
    pub exact :
        (a : ℕ) → a < s.scr_lns → Exact (s.picture (row s a)) (term.shown (view t term start p) a)
    pub cursor :
        s.cur_col < t.t_columns
        → s.cur_ln < t.t_lines
        → (term.col (view t term start p) ≡ s.cur_col)
          × (term.line (view t term start p) ≡ s.cur_ln)

  go-Placed :
      (p : Pen) (f : ℕ → ℕ → ℕ) (x y : ℕ)
      → Placed t term start p f
      → Placed t term start (go t p x y) f
  unfolding rel_move
  go-Placed p f x y s = elim (Bool-cases (leb t.t_lines y || leb t.t_columns x)) [
    | inl off ↦ rw off s
    | inr on ↦
        Went-Placed t term start (go t p x y) f x y (ground arith) (ground arith)
          (go-Went t term start p f x y (ground arith) (ground arith) s)
  ]

  -- The loop is done.
  Finished-Tracks :
      (s : Screen) (c d : ℕ → ℕ → ℕ) (r : Screen × Pen) (x y : ℕ)
      → s.scr_lns < 256
      → Finished t term start s c d r
      → Tracks r.0.picture r.0.scr_lns r.0.roll (pos 0) false (go t r.1 x y)
  Finished-Tracks s c d r x y short g = record {
    shows = g.shows;
    should = g.shows;
    height = g.frame.height;
    turn = g.frame.turn;
    short = omega (arith, short, g.places.lns);
    wide = omega (arith, g.frame.placed.col_in);
    rows = λ a h. (g.frame.done a (omega (arith, g.places.lns)) h).accurate;
    narrow = λ a h. (g.frame.done a (omega (arith, g.places.lns)) h).narrow;
    placed = λ e. go-Placed r.1 g.shows x y g.frame.placed;
    told = λ e a k h. will_none t.t_lines g.shows a k (omega (arith, g.frame.height));
    was = g.shows;
    slots = λ a h. (g.frame.done a (omega (arith, g.places.lns)) h).accurate;
    link = λ e a k h.
        let q : ltb (a + 0) r.0.scr_lns ≡ true = ground arith in
        rw q (ap (λ b. g.shows b k) (omega arith));
    few = λ e. unfold size in omega arith;
  }

  Exact-cells : (l m : Line) (r : ℕ → ℕ) → m.len ≡ l.len → m.cells ≡ l.cells → Exact m r → Exact l r
  Exact-cells l m r n e x = record {
    text = λ k h. x.text k (omega (arith, n)) ∙ ap (λ f. f k) e;
    rest = λ k h. x.rest k (omega (arith, n));
  }

  Finished-Displayed :
      (s : Screen) (c d : ℕ → ℕ → ℕ) (r : Screen × Pen)
      → Finished t term start s c d r
      → Displayed s (go t r.1 r.0.cur_col r.0.cur_ln)
  Finished-Displayed s c d r g =
      let at = go-Placed r.1 g.shows r.0.cur_col r.0.cur_ln g.frame.placed in
      record {
        exact = λ a h.
            let inside : a < r.0.scr_lns = omega (arith, h, g.places.lns) in
            let there : (a + r.0.roll) % r.0.scr_lns ≡ row s a =
              ap (λ n. (a + r.0.roll) % n) g.places.lns
              ∙ ap (λ n. (a + n) % s.scr_lns) g.places.rolled in
            let e = (g.frame.done a h inside).exact in
            let e1 =
              subst (λ f. Exact (r.0.picture (row r.0 a)) f)
                (fun_ext (λ k. sym (at.shown.all a k (omega (arith, g.frame.height, inside))))) e in
            Exact-cells _ _ _ (g.places.len (row s a)) (g.places.cells (row s a)) (
              subst
                (λ j.
                  Exact (r.0.picture j)
                    (term.shown (view t term start (go t r.1 r.0.cur_col r.0.cur_ln)) a))
                there e1);
        cursor = λ x y.
            let w =
              go-Went t term start r.1 g.shows r.0.cur_col r.0.cur_ln
                (omega (arith, x, g.places.col)) (omega (arith, y, g.places.ln)) g.frame.placed in
            (w.shown.col ∙ g.places.col, w.shown.line ∙ g.places.ln);
      }

  -- What a call of `refresh` leaves behind: the terminal shows the picture as it was, which is still the
  -- picture, with the cursor in the same place, and what is to come finds both in step.
  pub record Refreshed (s : Screen) (r : Screen × Pen) : Type 0 where
    pub displayed : Displayed s r.1
    pub in_step : InStep r.0 r.1
    pub len : (j : ℕ) → (r.0.picture j).len ≡ (s.picture j).len
    pub cells : (j : ℕ) → (r.0.picture j).cells ≡ (s.picture j).cells
    pub places : (r.0.cur_col ≡ s.cur_col) × (r.0.cur_ln ≡ s.cur_ln) × (r.0.roll ≡ s.roll)

  pub redoscr-Refreshed : (s : Screen) (p : Pen) → InStep s p → Refreshed s (redoscr t s p)
  unfolding redoscr emit
  redoscr-Refreshed s p i =
      let p0 = record (emit p clear_all) { tc_col = 0; tc_line = 0 } in
      let c = clear_all-Shown t term start p in
      let fr : Frame t term start s p0 (λ a k. b' ') i.should (λ a k. b' ') 0 = record {
        placed = record {
          shown = record { all = c.all; line = c.line; col = c.col };
          col_in = i.wide;
          line_in = omega (arith, i.height, i.turn);
        };
        height = i.height;
        turn = i.turn;
        done = λ a h m. absurd (omega arith);
        behind = λ a h m. i.rows a m;
        narrow = λ a h m. i.narrow a m;
        same = λ a k h. refl;
      } in
      let g =
        redo_rows-Finished t term start s.scr_lns s p0 (λ a k. b' ') i.should 0 (omega arith) fr in
      let r = redo_rows t s.scr_lns s p0 0 in
      record {
        displayed = Finished-Displayed s _ _ r g;
        in_step = Finished-Tracks s _ _ r r.0.cur_col r.0.cur_ln i.short g;
        len = g.places.len;
        cells = g.places.cells;
        places = (g.places.col, g.places.ln, g.places.rolled);
      }

  -- The other way: what has changed is sent.
  changes-Refreshed :
      (s : Screen) (p : Pen)
      → s.docls ≡ false
      → InStep s p
      → let (s1, p1) =
          refresh_rows t s.scr_lns
            (record s { scrollcnt = pos 0 })
            (scroll_lines t s.scrollcnt p)
            0 in
        Refreshed s (s1, go t p1 s1.cur_col s1.cur_ln)
  changes-Refreshed s p quiet i =
      let s0 = record s { scrollcnt = pos 0 } in
      let p0 = scroll_lines t s.scrollcnt p in
      let f = will t.t_lines s.scrollcnt i.shows in
      let fr : Frame t term start s0 p0 f f f 0 = record {
        placed = scroll_lines-Placed t term start s.scrollcnt p i.shows (i.placed quiet);
        height = i.height;
        turn = i.turn;
        done = λ a h m. absurd (omega arith);
        behind = λ a h m.
            subst (λ r. Accurate (s.picture (row s a)) r) (fun_ext (λ k. i.told quiet a k m))
              (i.rows a m);
        narrow = λ a h m. i.narrow a m;
        same = λ a k h. refl;
      } in
      let g = refresh_rows-Finished t term start s.scr_lns s0 p0 f f 0 (omega arith) fr in
      let r = refresh_rows t s.scr_lns s0 p0 0 in
      let e = Finished-Displayed s0 f f r g in
      let k = Finished-Tracks s0 f f r r.0.cur_col r.0.cur_ln i.short g in
      record {
        displayed = record { exact = e.exact; cursor = e.cursor };
        in_step =
            subst
              (λ n.
                Tracks r.0.picture r.0.scr_lns r.0.roll n r.0.docls
                  (go t r.1 r.0.cur_col r.0.cur_ln))
              (sym g.places.count)
              (subst
                (λ b.
                  Tracks r.0.picture r.0.scr_lns r.0.roll (pos 0) b
                    (go t r.1 r.0.cur_col r.0.cur_ln))
                (sym (g.places.cls ∙ quiet)) k);
        len = g.places.len;
        cells = g.places.cells;
        places = (g.places.col, g.places.ln, g.places.rolled);
      }

  -- `refresh`, while no key is waiting to be read, on a screen that is in step with the terminal: after it the terminal shows every line
  -- of the picture, with blanks behind it, its cursor is where the program has put it, when that is on
  -- the terminal, the picture's text is the same, and the two are still in step.
  pub refresh-Refreshed : (s : Screen) (p : Pen) → InStep s p → Refreshed s (refresh t 0 s p)
  unfolding refresh repaint
  refresh-Refreshed s p i =
      elim (Bool-cases (
        s.docls
        || leb s.scr_lns (size s.scrollcnt + 3)
        || is_back s.scrollcnt && not t.has_scrollrev)) [
          | inl whole ↦ rw whole (redoscr-Refreshed s p i)
          | inr part ↦ rw part (changes-Refreshed s p (ground arith) i)
        ]
