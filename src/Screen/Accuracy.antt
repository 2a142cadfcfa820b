-- ===== src/Screen/Accuracy.antt =====
-- What a line of the picture in bbssrc/src/screen.c says of the line that the terminal shows.
use firebird_bbs.Base.Maps.{update, update_self, update_ne}
use firebird_bbs.Base.{
  ℕ, ◌+◌, ◌%◌, ◌≤◌, ◌<◌, ◌≡◌, ◌≢◌, refl, sym, ap, ◌∙◌, max, Bool, true, false, ◌&&◌, ◌||◌, ltb, leb,
  ◌==◌, ==_iff, if◌then◌else◌, arith, Bool-cases, inl, inr,
}
use firebird_bbs.Screen.{
  Line, fill, clrtoeol_line, clrtobot_line, end_line, grow_line, mark_line, write_cell,
}
use firebird_bbs.Screen.Drawing.{Standing}

-- The column is in the part of the line that has been noted as changed.
abbrev pub changed : Line → ℕ → Bool
changed l k = l.modified && leb l.smod k && leb k l.emod

-- What the terminal shows, `r`, differs from the line only where the line notes a change, and in
-- what it is yet to wipe: behind `oldlen` columns the terminal shows blanks.
pub record Accurate (l : Line) (r : ℕ → ℕ) : Type 0 where
  pub text : (k : ℕ) → k < l.len → changed l k ≡ false → r k ≡ l.cells k
  pub rest : (k : ℕ) → l.oldlen ≤ k → r k ≡ b' '
  pub old_fits : l.oldlen ≤ 255
  pub fits : l.len ≤ 255
  pub stands : Standing l
  pub order : l.modified ≡ true → l.smod ≤ l.emod

-- The terminal shows the line.
pub record Exact (l : Line) (r : ℕ → ℕ) : Type 0 where
  pub text : (k : ℕ) → k < l.len → r k ≡ l.cells k
  pub rest : (k : ℕ) → l.len ≤ k → r k ≡ b' '

-- No place between the end of the line and the column may show old text.
abbrev pub no_gap : Line → ℕ → Bool
no_gap l col = leb col l.len || leb l.oldlen l.len

module _ (l : Line) (r : ℕ → ℕ) (a : Accurate l r) where
  -- The cells up to a column behind the end are blank on the terminal as they are in the line.
  fill-shown :
      (col to k : ℕ)
      → no_gap l col ≡ true
      → k < col
      → k < to
      → changed l k ≡ false
      → r k ≡ fill l.cells l.len to k
  unfolding fill
  fill-shown col to k gap h up same = elim (Bool-cases (ltb k l.len)) [
    | inl inside ↦
        let e : (leb l.len k && ltb k to) ≡ false = ground arith in
        rw e (a.text k (ground arith) same)
    | inr behind ↦
        let e : (leb l.len k && ltb k to) ≡ true = ground arith in rw e (a.rest k (ground arith))
  ]

  -- The line ends at a column, after blanks where it was shorter.
  ended :
      (col eso : ℕ) (stand grown : Bool)
      → ltb l.len col ≡ grown
      → no_gap l col ≡ true
      → col ≤ 255
      → (stand ≡ true → l.sso ≤ eso)
      → Accurate
          (record l {
            len = col;
            eso = eso;
            stand = stand;
            cells = if grown then fill l.cells l.len (col + 1) else l.cells;
          })
          r
  ended col eso stand true e gap small order = record {
    text = λ k h same. fill-shown col (col + 1) k gap h (omega arith) same;
    rest = a.rest;
    old_fits = a.old_fits;
    fits = small;
    stands = order;
    order = a.order;
  }
  ended col eso stand false e gap small order = record {
    text = λ k h same. a.text k (ground arith) same;
    rest = a.rest;
    old_fits = a.old_fits;
    fits = small;
    stands = order;
    order = a.order;
  }

  pub end_line-Accurate :
      (col : ℕ) (standing : Bool)
      → no_gap l col ≡ true
      → col ≤ 255
      → Accurate (end_line l col standing) r
  unfolding end_line
  end_line-Accurate col true gap small = elim (Bool-cases (ltb l.len col)) [
    | inl e ↦ rw e (
        ended col (max l.eso col) l.stand true e gap small (λ h. let o = a.stands h in omega arith))
    | inr e ↦ rw e (
        ended col (max l.eso col) l.stand false e gap small
          (λ h. let o = a.stands h in omega arith))
  ]
  end_line-Accurate col false gap small = elim (Bool-cases (ltb l.len col)) [
    | inl e ↦ rw e (ended col l.eso l.stand true e gap small a.stands)
    | inr e ↦ rw e (ended col l.eso l.stand false e gap small a.stands)
  ]

  -- Blanks are only put in where the column is behind `oldlen` as well; else there is no line to grow.
  pub clrtoeol_line-Accurate :
      (col : ℕ) → no_gap l col ≡ true → col ≤ 255 → Accurate (clrtoeol_line l col) r
  unfolding clrtoeol_line
  clrtoeol_line-Accurate col gap small = elim (Bool-cases (ltb l.oldlen col)) [
    | inl e ↦ elim (Bool-cases (leb col l.sso)) [
      | inl f ↦ rw (e, f) (filled false (λ h. absurd cc))
      | inr f ↦ rw (e, f) (filled l.stand a.stands)
    ]
    | inr e ↦ elim (Bool-cases (leb col l.sso)) [
      | inl f ↦ rw (e, f) (ended col l.eso false false (ground arith) gap small (λ h. absurd cc))
      | inr f ↦ rw (e, f) (ended col l.eso l.stand false (ground arith) gap small a.stands)
    ]
  ]
    where
      filled :
          (stand : Bool)
          → (stand ≡ true → l.sso ≤ l.eso)
          → Accurate (record l { stand = stand; cells = fill l.cells l.len (col + 1); len = col }) r
      filled stand order = record {
        text = λ k h same. fill-shown col (col + 1) k gap h (omega arith) same;
        rest = a.rest;
        old_fits = a.old_fits;
        fits = small;
        stands = order;
        order = a.order;
      }

  pub clrtobot_line-Accurate : Accurate (clrtobot_line l) r
  unfolding clrtobot_line
  clrtobot_line-Accurate = elim (Bool-cases (ltb 0 l.oldlen)) [
    | inl e ↦ rw e (record {
      text = λ k h same. absurd (omega arith);
      rest = λ k h. a.rest k (omega (arith, a.old_fits));
      old_fits = omega arith;
      fits = omega arith;
      stands = λ h. absurd cc;
      order = λ h. absurd cc;
    })
    | inr e ↦ rw e (record {
      text = λ k h same. absurd (omega arith);
      rest = a.rest;
      old_fits = a.old_fits;
      fits = omega arith;
      stands = λ h. absurd cc;
      order = λ h. absurd cc;
    })
  ]

marked_order :
    (l : Line) (col : ℕ)
    → (l.modified ≡ true → l.smod ≤ l.emod)
    → (mark_line l col).smod ≤ (mark_line l col).emod
unfolding mark_line
marked_order l col h = elim (Bool-cases l.modified) [
  | inl e ↦ let o = h e in rw e (omega arith)
  | inr e ↦ rw e (omega arith)
]

marked :
    (l : Line) (col k : ℕ) → changed (mark_line l col) k ≡ false → (changed l k ≡ false) × (k ≢ col)
unfolding mark_line
marked l col k h = elim (Bool-cases l.modified) [
  | inl e ↦ (let g = rw e at h in ground arith, λ q. let g = rw e at h in absurd (ground arith))
  | inr e ↦ (rw e refl, λ q. let g = rw e at h in absurd (ground arith))
]

module _ (l : Line) (r : ℕ → ℕ) (a : Accurate l r) (col c : ℕ) (gap : no_gap l col ≡ true)
    (small : col < 255) (shows : 0 < c) where
  write_cell-grown : leb l.len col ≡ true → Accurate (write_cell l col c) r
  unfolding write_cell grow_line mark_line
  write_cell-grown e =
      let l1 = record l { cells = update (fill l.cells l.len col) col 0; len = (col + 1) % 256 } in
      let n : (col + 1) % 256 ≡ col + 1 = omega arith in
      let new : (update (fill l.cells l.len col) col 0 col == c) ≡ false =
        rw (update_self (fill l.cells l.len col) col 0) (ground arith) in
      rw (e, new)
        (record {
          text = λ k h same.
              let (old, away) = marked l1 col k same in
              (let q : k < col = omega (arith, h, n, away) in
                fill-shown l r a col col k gap q q old)
              ∙ sym (update_ne (fill l.cells l.len col) col 0 k away)
              ∙ sym (update_ne (update (fill l.cells l.len col) col 0) col c k away);
          rest = a.rest;
          old_fits = a.old_fits;
          fits = omega arith;
          stands = a.stands;
          order = λ h. marked_order l col a.order;
        })

  write_cell-within : leb l.len col ≡ false → Accurate (write_cell l col c) r
  unfolding write_cell grow_line mark_line
  write_cell-within e = elim (Bool-cases (l.cells col == c)) [
    | inl f ↦
        rw (e, f)
          (record {
            text = λ k h same. elim (Bool-cases (k == col)) [
              | inl here ↦
                  let q : k ≡ col = (==_iff k col).0 here in
                  a.text k h same
                  ∙ ap l.cells q
                  ∙ (==_iff (l.cells col) c).0 f
                  ∙ sym (update_self l.cells col c)
                  ∙ ap (update l.cells col c) (sym q)
              | inr off ↦
                  a.text k h same ∙ sym (update_ne l.cells col c k (λ q. absurd (ground arith)))
            ];
            rest = a.rest;
            old_fits = a.old_fits;
            fits = a.fits;
            stands = a.stands;
            order = a.order;
          })
    | inr f ↦
        rw (e, f)
          (record {
            text = λ k h same.
                let (old, away) = marked l col k same in
                a.text k h old ∙ sym (update_ne l.cells col c k away);
            rest = a.rest;
            old_fits = a.old_fits;
            fits = a.fits;
            stands = a.stands;
            order = λ h. marked_order l col a.order;
          })
  ]

  -- A character put at a column, where what lies between is blank.
  pub write_cell-Accurate : Accurate (write_cell l col c) r
  write_cell-Accurate = elim (Bool-cases (leb l.len col)) [
    | inl e ↦ write_cell-grown e
    | inr e ↦ write_cell-within e
  ]
