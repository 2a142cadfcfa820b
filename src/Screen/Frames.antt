-- ===== src/Screen/Frames.antt =====
-- The loops of `redoscr` and `refresh` of bbssrc/src/screen.c over the lines of the screen.
use native.Mathlib.Nat.{mod-eq_of_lt, mod-eq-sub-mod}
use firebird_bbs.Base.Maps.{update, update_self, update_ne}
use firebird_bbs.Base.{
  ℕ, ◌+◌, ◌-◌, ◌%◌, ◌≤◌, ◌<◌, ◌≡◌, ◌≢◌, refl, sym, ap, ◌∙◌, subst, fun_ext, Bool, true, false, ltb,
  ◌==◌, ==_iff, if◌then◌else◌, arith, Bool-cases, inl, inr,
}
use firebird_bbs.Screen.{Line, Screen, Setup, row, set_line}
use firebird_bbs.Screen.Terminal.{Terminal}
use firebird_bbs.Screen.Refresh.{Pen}
use firebird_bbs.Screen.Going.{Placed}
use firebird_bbs.Screen.Drawing.{Standing}
use firebird_bbs.Screen.Accuracy.{Accurate, Exact}
use firebird_bbs.Screen.Rows.{is_changed, last_of, wiped, wiped-Exact}

-- The index of a line, written out.
pub row_mod :
    (a r n : ℕ) → a < n → r < n → (a + r) % n ≡ (if ltb (a + r) n then a + r else a + r - n)
row_mod a r n h l = elim (Bool-cases (ltb (a + r) n)) [
  | inl e ↦ rw e (mod-eq_of_lt (ground arith))
  | inr e ↦ rw e (mod-eq-sub-mod (ground arith) ∙ mod-eq_of_lt (omega arith))
]

pub row_ne : (a b r n : ℕ) → a < n → b < n → r < n → a ≢ b → (a + r) % n ≢ (b + r) % n
row_ne a b r n h l m ne e = let q = sym (row_mod a r n h m) ∙ e ∙ row_mod b r n l m in ground arith

-- Nothing but what is noted of the lines differs.
pub record SamePlaces (s s' : Screen) : Type 0 where
  pub col : s'.cur_col ≡ s.cur_col
  pub ln : s'.cur_ln ≡ s.cur_ln
  pub lns : s'.scr_lns ≡ s.scr_lns
  pub cols : s'.scr_cols ≡ s.scr_cols
  pub rolled : s'.roll ≡ s.roll
  pub count : s'.scrollcnt ≡ s.scrollcnt
  pub cls : s'.docls ≡ s.docls
  pub len : (j : ℕ) → (s'.picture j).len ≡ (s.picture j).len
  pub cells : (j : ℕ) → (s'.picture j).cells ≡ (s.picture j).cells

pub same_places : (s : Screen) → SamePlaces s s
same_places s = record {
  col = refl;
  ln = refl;
  lns = refl;
  cols = refl;
  rolled = refl;
  count = refl;
  cls = refl;
  len = λ j. refl;
  cells = λ j. refl;
}

-- A line is put in another's place that has the same text.
pub set_line-len :
    (s : Screen) (i j : ℕ) (l : Line)
    → l.len ≡ (s.picture j).len
    → ((set_line s j l).picture i).len ≡ (s.picture i).len
unfolding set_line
set_line-len s i j l e = elim (Bool-cases (i == j)) [
  | inl q ↦
      let here = (==_iff i j).0 q in
      subst (λ k. (update s.picture j l k).len ≡ (s.picture k).len) (sym here)
        (ap (λ x. x.len) (update_self s.picture j l) ∙ e)
  | inr q ↦ ap (λ x. x.len) (update_ne s.picture j l i (λ h. absurd (ground arith)))
]

pub set_line-cells :
    (s : Screen) (i j : ℕ) (l : Line)
    → l.cells ≡ (s.picture j).cells
    → ((set_line s j l).picture i).cells ≡ (s.picture i).cells
unfolding set_line
set_line-cells s i j l e = elim (Bool-cases (i == j)) [
  | inl q ↦
      let here = (==_iff i j).0 q in
      subst (λ k. (update s.picture j l k).cells ≡ (s.picture k).cells) (sym here)
        (ap (λ x. x.cells) (update_self s.picture j l) ∙ e)
  | inr q ↦ ap (λ x. x.cells) (update_ne s.picture j l i (λ h. absurd (ground arith)))
]

-- The line is on the terminal as it is, and so is it noted.
pub record Settled (width : ℕ) (l : Line) (r : ℕ → ℕ) : Type 0 where
  pub exact : Exact l r
  pub accurate : Accurate l r
  pub narrow : l.len < width

-- What `refresh` writes down of a line that it has brought to the terminal.
abbrev pub noted : Line → Line
noted l =
    let l1 = if is_changed l then record l { modified = false; emod = last_of l } else l in
    record l1 { oldlen = l.len }

pub noted_text : (l : Line) → ((noted l).len ≡ l.len) × ((noted l).cells ≡ l.cells)
noted_text l = elim (Bool-cases (is_changed l)) [
  | inl c ↦ rw c (refl, refl)
  | inr c ↦ rw c (refl, refl)
]

-- A line that the terminal shows, once its length has been noted.
pub met :
    (width : ℕ) (l : Line) (r : ℕ → ℕ) (m : Bool) (emod : ℕ)
    → Standing l
    → l.len ≤ 255
    → (m ≡ true → l.smod ≤ emod)
    → l.len < width
    → Exact l r
    → Settled width (record l { oldlen = l.len; modified = m; emod = emod }) r
met width l r m emod st fits order narrow e = record {
  exact = record { text = e.text; rest = e.rest };
  accurate = record {
    text = λ k h same. e.text k h;
    rest = e.rest;
    old_fits = fits;
    fits = fits;
    stands = st;
    order = order;
  };
  narrow = narrow;
}

pub noted-Settled :
    (width : ℕ) (f : ℕ → ℕ → ℕ) (i : ℕ) (l : Line)
    → Accurate l (f i)
    → l.len < width
    → Settled width (noted l) (wiped f i l i)
noted-Settled width f i l a narrow = elim (Bool-cases (is_changed l)) [
  | inl c ↦
      let e = wiped-Exact f i l a in
      rw c (
        rw c at
          (met width l (wiped f i l i) false (last_of l) a.stands a.fits (λ h. absurd cc) narrow e))
  | inr c ↦
      let e = wiped-Exact f i l a in
      rw c
        (rw c at (met width l (wiped f i l i) l.modified l.emod a.stands a.fits a.order narrow e))
]

module _ (t : Setup) (term : Terminal t.t_lines t.t_columns) (start : term.T) where
  -- Before line `i` of a loop: the lines before it are settled, and of those behind, `c` is what the
  -- picture takes the terminal to show, and `d` what it does show.
  pub record Frame (s : Screen) (p : Pen) (f c d : ℕ → ℕ → ℕ) (i : ℕ) : Type 0 where
    pub placed : Placed t term start p f
    pub height : s.scr_lns ≡ t.t_lines
    pub turn : s.roll < s.scr_lns
    pub done : (a : ℕ) → a < i → a < s.scr_lns → Settled t.t_columns (s.picture (row s a)) (f a)
    pub behind : (a : ℕ) → i ≤ a → a < s.scr_lns → Accurate (s.picture (row s a)) (c a)
    pub narrow : (a : ℕ) → i ≤ a → a < s.scr_lns → (s.picture (row s a)).len < t.t_columns
    pub same : (a k : ℕ) → i ≤ a → f a k ≡ d a k

  pub settle_row :
      (s : Screen) (p q : Pen) (f g c d : ℕ → ℕ → ℕ) (i : ℕ) (l : Line)
      → i < s.scr_lns
      → Frame s p f c d i
      → Placed t term start q g
      → Settled t.t_columns l (g i)
      → ((a k : ℕ) → (a == i) ≡ false → g a k ≡ f a k)
      → Frame (set_line s (row s i) l) q g c d (i + 1)
  unfolding set_line
  settle_row s p q f g c d i l inside fr at here off = record {
    placed = at;
    height = fr.height;
    turn = fr.turn;
    done = λ a h m. elim (Bool-cases (a == i)) [
      | inl e ↦
          let q : a ≡ i = (==_iff a i).0 e in
          subst (λ b. Settled t.t_columns (update s.picture (row s i) l (row s b)) (g b)) (sym q)
            (subst (λ x. Settled t.t_columns x (g i)) (sym (update_self s.picture (row s i) l))
              here)
      | inr e ↦
          let old = fr.done a (ground arith) m in
          subst (λ x. Settled t.t_columns x (g a)) (sym (other a m (λ q. absurd (ground arith))))
            (subst (λ r. Settled t.t_columns (s.picture (row s a)) r)
              (fun_ext (λ k. sym (off a k e))) old)
    ];
    behind = λ a h m.
        subst (λ x. Accurate x (c a)) (sym (other a m (λ q. absurd (omega (arith, q, h)))))
          (fr.behind a (omega arith) m);
    narrow = λ a h m.
        subst (λ x. x.len < t.t_columns) (sym (other a m (λ q. absurd (omega (arith, q, h)))))
          (fr.narrow a (omega arith) m);
    same = λ a k h. off a k (ground arith) ∙ fr.same a k (omega arith);
  }
    where
      other :
          (a : ℕ)
          → a < s.scr_lns
          → a ≢ i
          → update s.picture (row s i) l (row s a) ≡ s.picture (row s a)
      other a m ne =
          update_ne s.picture (row s i) l (row s a)
            (row_ne a i s.roll s.scr_lns m inside fr.turn ne)

  -- What a loop leaves behind.
  pub record Finished (s : Screen) (c d : ℕ → ℕ → ℕ) (r : Screen × Pen) : Type 0 where
    pub shows : ℕ → ℕ → ℕ
    pub frame : Frame r.0 r.1 shows c d s.scr_lns
    pub places : SamePlaces s r.0
