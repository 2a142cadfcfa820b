-- ===== src/Screen/Writing.antt =====
-- What the operations of bbssrc/src/screen.c that write on a line do to the picture: it stays in step with
-- the terminal.
use firebird_bbs.Base.Maps.{update, update_self, update_ne}
use firebird_bbs.Base.{
  ℕ, ◌+◌, ◌%◌, ◌≤◌, ◌<◌, ◌≡◌, ◌≢◌, refl, sym, subst, max, Bool, true, false, ◌&&◌, ◌||◌, not, leb,
  ◌==◌, ==_iff, if◌then◌else◌, arith, Bool-cases, inl, inr,
}
use firebird_bbs.Screen.{
  Line, Screen, Setup, row, set_line, fill, is_print, clrtoeol_line, clrtoeol, end_line, grow_line,
  mark_line, write_cell, advance, outc_line, outc, standout, standend,
}
use firebird_bbs.Screen.Terminal.{Terminal}
use firebird_bbs.Screen.Refresh.{Pen}
use firebird_bbs.Screen.Accuracy.{
  Accurate, no_gap, end_line-Accurate, clrtoeol_line-Accurate, write_cell-Accurate,
}
use firebird_bbs.Screen.Frames.{row_ne}
use firebird_bbs.Screen.Shows.{Tracks, InStep}

-- The highlighted part ends further on.
eso-Accurate :
    (l : Line) (r : ℕ → ℕ) (eso : ℕ)
    → l.eso ≤ eso
    → Accurate l r
    → Accurate (record l { eso = eso }) r
eso-Accurate l r eso h a = record {
  text = a.text;
  rest = a.rest;
  old_fits = a.old_fits;
  fits = a.fits;
  stands = λ e. let o = a.stands e in omega arith;
  order = a.order;
}

-- It starts at a column.
stand-Accurate :
    (l : Line) (r : ℕ → ℕ) (col : ℕ)
    → Accurate l r
    → Accurate (record l { sso = col; eso = col; stand = true }) r
stand-Accurate l r col a = record {
  text = a.text;
  rest = a.rest;
  old_fits = a.old_fits;
  fits = a.fits;
  stands = λ e. omega arith;
  order = a.order;
}

pub write_cell-len :
    (l : Line) (col c : ℕ)
    → (write_cell l col c).len ≡ (if leb l.len col then (col + 1) % 256 else l.len)
unfolding write_cell grow_line mark_line
write_cell-len l col c = elim (Bool-cases (leb l.len col)) [
  | inl e ↦ elim (Bool-cases (update (fill l.cells l.len col) col 0 col == c)) [
    | inl f ↦ rw (e, f) refl
    | inr f ↦ rw (e, f) refl
  ]
  | inr e ↦ elim (Bool-cases (l.cells col == c)) [ inl f ↦ rw (e, f) refl | inr f ↦ rw (e, f) refl ]
]

end_line-len : (l : Line) (col : ℕ) (standing : Bool) → (end_line l col standing).len ≡ col
unfolding end_line
end_line-len l col standing = refl

-- The cursor is where a character can be put: on the screen, before its last column, and not behind
-- old text that the line no longer has.
pub record Fits (t : Setup) (s : Screen) : Type 0 where
  pub ln : s.cur_ln < s.scr_lns
  pub col : s.cur_col + 1 < t.t_columns
  pub small : s.cur_col < 255
  pub gap : no_gap (s.picture (row s s.cur_ln)) s.cur_col ≡ true

-- The cursor is where a line can be cut.
pub record Cuts (t : Setup) (s : Screen) : Type 0 where
  pub ln : s.cur_ln < s.scr_lns
  pub col : s.cur_col < t.t_columns
  pub small : s.cur_col ≤ 255
  pub gap : no_gap (s.picture (row s s.cur_ln)) s.cur_col ≡ true

module _ (t : Setup) (term : Terminal t.t_lines t.t_columns) (start : term.T) where
  -- A line is changed, and says of the terminal what is right.
  pub change_row :
      (s : Screen) (p : Pen) (b : ℕ) (l : Line)
      → b < s.scr_lns
      → (i : InStep t term start s p)
      → ((r : ℕ → ℕ) → Accurate (s.picture (row s b)) r → Accurate l r)
      → l.len < t.t_columns
      → Tracks t term start (update s.picture (row s b) l) s.scr_lns s.roll s.scrollcnt s.docls p
  change_row s p b l inside i acc slim = record {
    shows = i.shows;
    should = i.should;
    height = i.height;
    turn = i.turn;
    short = i.short;
    wide = i.wide;
    rows = keep i.should i.rows;
    narrow = λ a h. elim (Bool-cases (a == b)) [
      | inl e ↦
          let q : a ≡ b = (==_iff a b).0 e in
          subst (λ a. (update s.picture (row s b) l (row s a)).len < t.t_columns) (sym q)
            (subst (λ x. x.len < t.t_columns) (sym (update_self s.picture (row s b) l)) slim)
      | inr e ↦
          subst (λ x. x.len < t.t_columns) (sym (other a h (λ q. absurd (ground arith))))
            (i.narrow a h)
    ];
    placed = i.placed;
    told = i.told;
    was = i.was;
    slots = keep i.was i.slots;
    link = i.link;
    few = i.few;
  }
    where
      other :
          (a : ℕ)
          → a < s.scr_lns
          → a ≢ b
          → update s.picture (row s b) l (row s a) ≡ s.picture (row s a)
      other a h ne =
          update_ne s.picture (row s b) l (row s a) (row_ne a b s.roll s.scr_lns h inside i.turn ne)

      keep :
          (c : ℕ → ℕ → ℕ)
          → ((a : ℕ) → a < s.scr_lns → Accurate (s.picture (row s a)) (c a))
          → (a : ℕ) → a < s.scr_lns
          → Accurate (update s.picture (row s b) l (row s a)) (c a)
      keep c old a h = elim (Bool-cases (a == b)) [
        | inl e ↦
            let q : a ≡ b = (==_iff a b).0 e in
            subst (λ a. Accurate (update s.picture (row s b) l (row s a)) (c a)) (sym q)
              (subst (λ x. Accurate x (c b)) (sym (update_self s.picture (row s b) l))
                (acc (c b) (old b inside)))
        | inr e ↦
            subst (λ x. Accurate x (c a)) (sym (other a h (λ q. absurd (ground arith)))) (old a h)
      ]

  -- The end of `outc`.
  advance-InStep :
      (s : Screen) (p : Pen) (b : ℕ) (l : Line) (col : ℕ)
      → b < s.scr_lns
      → (i : InStep t term start s p)
      → ((r : ℕ → ℕ) → Accurate (s.picture (row s b)) r → Accurate l r)
      → l.len < t.t_columns
      → InStep t term start (advance s (row s b) l col) p
  unfolding advance set_line
  advance-InStep s p b l col inside i a slim =
      elim (Bool-cases (leb s.scr_cols ((col + 1) % 256))) [
        | inr e ↦ rw e (change_row s p b l inside i a slim)
        | inl e ↦ elim (Bool-cases (s.standing && l.stand)) [
          | inr f ↦ rw (e, f) (change_row s p b l inside i a slim)
          | inl f ↦
              let l1 = record l { eso = max l.eso ((col + 1) % 256) } in
              rw (e, f)
                (change_row s p b l1 inside i (λ r c. eso-Accurate l r l1.eso (omega arith) (a r c))
                  slim)
        ]
      ]

  pub outc_line-InStep :
      (s : Screen) (p : Pen) (c : ℕ)
      → 0 < c
      → Fits t s
      → InStep t term start s p
      → InStep t term start (outc_line t s c) p
  unfolding outc_line set_line
  outc_line-InStep s p c shows fits i =
      let l = s.picture (row s s.cur_ln) in
      let old = i.narrow s.cur_ln fits.ln in
      elim (Bool-cases (not (is_print c) && (c == 10 || c == 13))) [
        | inl e ↦ rw e (
            change_row s p s.cur_ln (end_line l s.cur_col s.standing) fits.ln i
              (λ r a.
                end_line-Accurate l r a s.cur_col s.standing fits.gap (omega (arith, fits.small)))
              (omega (arith, end_line-len l s.cur_col s.standing, fits.col)))
        | inr e ↦
            let ch = if not (is_print c) && (not (c == 27) || not t.showansi) then b'*' else c in
            rw e (
              advance-InStep s p s.cur_ln (write_cell l s.cur_col ch) s.cur_col fits.ln i
                (λ r a. write_cell-Accurate l r a s.cur_col ch fits.gap fits.small (ground arith))
                (let n = write_cell-len l s.cur_col ch in ground arith))
      ]

  if-InStep :
      (b : Bool) (p : Pen) (x y : Screen)
      → InStep t term start x p
      → InStep t term start y p
      → InStep t term start (if b then x else y) p
  if-InStep true p x y i j = i
  if-InStep false p x y i j = j

  -- A byte is written at the cursor: the picture stays in step with the terminal.
  pub outc-InStep :
      (s : Screen) (p : Pen) (c : ℕ)
      → 0 < c
      → Fits t s
      → InStep t term start s p
      → InStep t term start (outc t s c) p
  unfolding outc
  outc-InStep s p c shows fits i =
      if-InStep s.inansi p (if c == b'm' then record s { inansi = false } else s)
        (if c == 27 && not t.iscolor then record s { inansi = true } else outc_line t s c)
        (if-InStep (c == b'm') p (record s { inansi = false }) s i i)
        (if-InStep (c == 27 && not t.iscolor) p (record s { inansi = true }) (outc_line t s c) i
          (outc_line-InStep s p c shows fits i))

  clrtoeol_line-len : (l : Line) (col : ℕ) → (clrtoeol_line l col).len ≡ col
  unfolding clrtoeol_line
  clrtoeol_line-len l col = refl

  pub clrtoeol-InStep :
      (s : Screen) (p : Pen)
      → Cuts t s
      → InStep t term start s p
      → InStep t term start (clrtoeol s) p
  unfolding clrtoeol set_line
  clrtoeol-InStep s p fits i =
      let l = s.picture (row s s.cur_ln) in
      change_row s p s.cur_ln (clrtoeol_line l s.cur_col) fits.ln i
        (λ r a. clrtoeol_line-Accurate l r a s.cur_col fits.gap fits.small)
        (omega (arith, clrtoeol_line-len l s.cur_col, fits.col))

  pub standout-InStep :
      (s : Screen) (p : Pen)
      → s.cur_ln < s.scr_lns
      → InStep t term start s p
      → InStep t term start (standout t s) p
  unfolding standout set_line
  standout-InStep s p inside i = elim (Bool-cases (not t.has_standout || s.standing)) [
    | inl e ↦ rw e i
    | inr e ↦
        let l = s.picture (row s s.cur_ln) in
        rw e (
          change_row s p s.cur_ln (record l { sso = s.cur_col; eso = s.cur_col; stand = true })
            inside i (λ r a. stand-Accurate l r s.cur_col a) (i.narrow s.cur_ln inside))
  ]

  pub standend-InStep :
      (s : Screen) (p : Pen)
      → s.cur_ln < s.scr_lns
      → InStep t term start s p
      → InStep t term start (standend t s) p
  unfolding standend set_line
  standend-InStep s p inside i = elim (Bool-cases (not t.has_standout || not s.standing)) [
    | inl e ↦ rw e i
    | inr e ↦
        let l = s.picture (row s s.cur_ln) in
        rw e (
          change_row s p s.cur_ln (record l { eso = max l.eso s.cur_col }) inside i
            (λ r a. eso-Accurate l r (max l.eso s.cur_col) (omega arith) a)
            (i.narrow s.cur_ln inside))
  ]
