-- ===== src/Screen/Loops.antt =====
-- The loops of `redoscr` and `refresh` of bbssrc/src/screen.c, line by line to the end.
use firebird_bbs.Base.{
  ℕ, zero, suc, ◌+◌, ◌<◌, ◌≡◌, refl, sym, ◌∙◌, subst, fun_ext, Bool, true, false, ◌&&◌, not, ltb,
  leb, ◌==◌, ==_iff, if◌then◌else◌, arith, Bool-cases, inl, inr,
}
use firebird_bbs.Screen.{Line, Screen, Setup, row, set_line}
use firebird_bbs.Screen.Terminal.{Terminal}
use firebird_bbs.Screen.Refresh.{
  Pen, go, draw, wrap_pen, draw_changes, clear_rest, redo_rows, refresh_rows,
}
use firebird_bbs.Screen.Pens.{paint}
use firebird_bbs.Screen.Going.{Placed, go-Went}
use firebird_bbs.Screen.Drawing.{draw-Shown, draw-SameNotes}
use firebird_bbs.Screen.Accuracy.{Accurate}
use firebird_bbs.Screen.Rows.{is_changed, wiped, wiped_other, row-Placed, wrap_pen-Placed}
use firebird_bbs.Screen.Frames.{
  Settled, Frame, Finished, settle_row, noted, same_places, set_line-len, set_line-cells,
  noted_text, met, noted-Settled,
}

module _ (t : Setup) (term : Terminal t.t_lines t.t_columns) (start : term.T) where
  onward :
      (s : Screen) (j : ℕ) (l : Line) (c d : ℕ → ℕ → ℕ) (r : Screen × Pen)
      → l.len ≡ (s.picture j).len
      → l.cells ≡ (s.picture j).cells
      → Finished t term start (set_line s j l) c d r
      → Finished t term start s c d r
  unfolding set_line
  onward s j l c d r n e g = record {
    shows = g.shows;
    frame = g.frame;
    places = record {
      col = g.places.col;
      ln = g.places.ln;
      lns = g.places.lns;
      cols = g.places.cols;
      rolled = g.places.rolled;
      count = g.places.count;
      cls = g.places.cls;
      len = λ i. g.places.len i ∙ set_line-len s i j l n;
      cells = λ i. g.places.cells i ∙ set_line-cells s i j l e;
    };
  }

  pub refresh_rows-Finished :
      (k : ℕ) (s : Screen) (p : Pen) (f c : ℕ → ℕ → ℕ) (i : ℕ)
      → i + k ≡ s.scr_lns
      → Frame t term start s p f c c i
      → Finished t term start s c c (refresh_rows t k s p i)
  unfolding refresh_rows set_line
  refresh_rows-Finished zero s p f c i e fr = record {
    shows = f;
    frame = subst (λ x. Frame t term start s p f c c x) (omega arith) fr;
    places = same_places s;
  }
  refresh_rows-Finished (suc k) s p f c i e fr =
      let l = s.picture (row s i) in
      let inside : i < s.scr_lns = omega arith in
      let a =
        subst (λ r. Accurate l r) (fun_ext (λ k. sym (fr.same i k (omega arith))))
          (fr.behind i (omega arith) inside) in
      let narrow = fr.narrow i (omega arith) inside in
      let q = clear_rest t (if is_changed l then draw_changes t p l i else p) l i in
      let at = row-Placed t term start p f l i a narrow (omega (arith, fr.height)) fr.placed in
      let fr1 =
        settle_row t term start s p q f (wiped f i l) c c i (noted l) inside fr at
          (noted-Settled t.t_columns f i l a narrow) (λ b k. wiped_other f i b k l) in
      let (len, cells) = noted_text l in
      onward s (row s i) (noted l) c c _ len cells (
        refresh_rows-Finished k (set_line s (row s i) (noted l)) q (wiped f i l) c (i + 1)
          (omega arith) fr1)

  -- A line that has nothing in it needs nothing on a cleared screen.
  settle_empty :
      (s : Screen) (p : Pen) (f c : ℕ → ℕ → ℕ) (i : ℕ)
      → i < s.scr_lns
      → (s.picture (row s i)).len ≡ 0
      → Frame t term start s p f c (λ a k. b' ') i
      → Frame t term start s p f c (λ a k. b' ') (i + 1)
  settle_empty s p f c i inside none fr = record {
    placed = fr.placed;
    height = fr.height;
    turn = fr.turn;
    done = λ a h m. elim (Bool-cases (a == i)) [
      | inl e ↦
          let q : a ≡ i = (==_iff a i).0 e in
          subst (λ b. Settled t.t_columns (s.picture (row s b)) (f b)) (sym q) here
      | inr e ↦ fr.done a (ground arith) m
    ];
    behind = λ a h m. fr.behind a (omega arith) m;
    narrow = λ a h m. fr.narrow a (omega arith) m;
    same = λ a k h. fr.same a k (omega arith);
  }
    where
      here : Settled t.t_columns (s.picture (row s i)) (f i)
      here =
          let a = fr.behind i (omega arith) inside in
          record {
            exact = record {
              text = λ k h. absurd (omega (arith, none));
              rest = λ k h. fr.same i k (omega arith);
            };
            accurate = record {
              text = λ k h same. absurd (omega (arith, none));
              rest = λ k h. fr.same i k (omega arith);
              old_fits = a.old_fits;
              fits = a.fits;
              stands = a.stands;
              order = a.order;
            };
            narrow = fr.narrow i (omega arith) inside;
          }

  -- A line on a cleared screen.
  settle_whole :
      (s : Screen) (p : Pen) (f c : ℕ → ℕ → ℕ) (i : ℕ) (wraps : Bool)
      → i < s.scr_lns
      → Frame t term start s p f c (λ a k. b' ') i
      → let l = s.picture (row s i) in
        let p1 = draw (go t p 0 i) l 0 l.len in
        Frame t term start
          (set_line s (row s i) (record l { modified = false; oldlen = l.len }))
          (wrap_pen t wraps p1 (p1.tc_col + l.len))
          (paint f i 0 l.len l.cells)
          c
          (λ a k. b' ')
          (i + 1)
  settle_whole s p f c i wraps inside fr =
      let l = s.picture (row s i) in
      let a = fr.behind i (omega arith) inside in
      let narrow = fr.narrow i (omega arith) inside in
      let low : i < t.t_lines = omega (arith, fr.height) in
      let w = go-Went t term start p f 0 i (omega arith) low fr.placed in
      let p0 = go t p 0 i in
      let p1 = draw p0 l 0 l.len in
      let notes = draw-SameNotes p0 l 0 l.len in
      let drawn = draw-Shown t term start p0 f l 0 l.len i (omega arith) narrow a.stands w.shown in
      let col : p1.tc_col + l.len ≡ l.len = omega (arith, notes.col, w.to_col) in
      let at =
        subst (λ x. Placed t term start (wrap_pen t wraps p1 x) (paint f i 0 l.len l.cells))
          (sym col)
          (wrap_pen-Placed t term start wraps p0 p1 f 0 i l.len w low narrow
            (paint f i 0 l.len l.cells) drawn notes.line) in
      settle_row t term start s p (wrap_pen t wraps p1 (p1.tc_col + l.len)) f
        (paint f i 0 l.len l.cells) c (λ b k. b' ') i
        (record l { modified = false; oldlen = l.len }) inside fr at
        (met t.t_columns l (paint f i 0 l.len l.cells i) false l.emod a.stands a.fits
          (λ h. absurd cc) narrow
          (record {
            text = λ k h.
                let e : (i == i && leb 0 k && ltb k l.len) ≡ true = ground arith in rw e refl;
            rest = λ k h.
                let e : (i == i && leb 0 k && ltb k l.len) ≡ false = ground arith in
                rw e (fr.same i k (omega arith));
          }))
        (λ b k off. rw off refl)

  pub redo_rows-Finished :
      (k : ℕ) (s : Screen) (p : Pen) (f c : ℕ → ℕ → ℕ) (i : ℕ)
      → i + k ≡ s.scr_lns
      → Frame t term start s p f c (λ a b. b' ') i
      → Finished t term start s c (λ a b. b' ') (redo_rows t k s p i)
  unfolding redo_rows set_line
  redo_rows-Finished zero s p f c i e fr = record {
    shows = f;
    frame = subst (λ x. Frame t term start s p f c (λ a b. b' ') x) (omega arith) fr;
    places = same_places s;
  }
  redo_rows-Finished (suc k) s p f c i e fr = elim (Bool-cases ((s.picture (row s i)).len == 0)) [
    | inl none ↦ rw none (
        redo_rows-Finished k s p f c (i + 1) (omega arith)
          (settle_empty s p f c i (omega arith) ((==_iff _ 0).0 none) fr))
    | inr some ↦
        let l = s.picture (row s i) in
        let l1 = record l { modified = false; oldlen = l.len } in
        let p1 = draw (go t p 0 i) l 0 l.len in
        let p2 = wrap_pen t (not t.automargins) p1 (p1.tc_col + l.len) in
        rw some (
          onward s (row s i) l1 c (λ a b. b' ') _ refl refl
            (redo_rows-Finished k (set_line s (row s i) l1) p2 (paint f i 0 l.len l.cells) c (i + 1)
              (omega arith) (settle_whole s p f c i (not t.automargins) (omega arith) fr)))
  ]
