-- ===== src/Screen/Going.antt =====
-- `rel_move` of bbssrc/src/screen.c, which brings the cursor to a place.
use firebird_bbs.Base.{
  ℕ, ◌+◌, ◌<◌, ◌≡◌, refl, sym, subst, false, ◌&&◌, ◌||◌, leb, ◌==◌, arith, Bool-cases, inl, inr,
}
use firebird_bbs.Screen.{Setup}
use firebird_bbs.Screen.Terminal.{
  Command, newline, carriage_return, cursor_left, cursor_to, Terminal,
}
use firebird_bbs.Screen.Refresh.{Pen, emit, rel_move, go}
use firebird_bbs.Screen.Pens.{
  Shown, newline-Shown, carriage_return-Shown, cursor_left-Shown, cursor_to-Shown,
}

module _ (t : Setup) (term : Terminal t.t_lines t.t_columns) (start : term.T) where
  -- The cursor is where the program takes it to be, and on the screen.
  pub record Placed (p : Pen) (f : ℕ → ℕ → ℕ) : Type 0 where
    pub shown : Shown t term start p f p.tc_col p.tc_line
    pub col_in : p.tc_col < t.t_columns
    pub line_in : p.tc_line < t.t_lines

  -- The cursor has gone to a place, as the program takes it to have.
  pub record Went (p : Pen) (f : ℕ → ℕ → ℕ) (x y : ℕ) : Type 0 where
    pub shown : Shown t term start p f x y
    pub to_col : p.tc_col ≡ x
    pub to_line : p.tc_line ≡ y

  pub Went-Placed :
      (p : Pen) (f : ℕ → ℕ → ℕ) (x y : ℕ)
      → x < t.t_columns
      → y < t.t_lines
      → Went p f x y
      → Placed p f
  Went-Placed p f x y c l w = record {
    shown =
        subst (λ a. Shown t term start p f a p.tc_line) (sym w.to_col)
          (subst (λ b. Shown t term start p f x b) (sym w.to_line) w.shown);
    col_in = omega (arith, w.to_col);
    line_in = omega (arith, w.to_line);
  }

  -- Each way to go: `p1` is the pen with the cursor's new place written down.
  went :
      (p : Pen) (f : ℕ → ℕ → ℕ) (x y : ℕ) (c : Command)
      → Shown t term start (emit (record p { tc_col = x; tc_line = y }) c) f x y
      → Went (emit (record p { tc_col = x; tc_line = y }) c) f x y
  unfolding emit
  went p f x y c s = record { shown = s; to_col = refl; to_line = refl }

  aim :
      (p : Pen) (f : ℕ → ℕ → ℕ) (x y a b : ℕ)
      → Shown t term start p f a b
      → Shown t term start (record p { tc_col = x; tc_line = y }) f a b
  aim p f x y a b s = record { all = s.all; line = s.line; col = s.col }

  pub go-Went :
      (p : Pen) (f : ℕ → ℕ → ℕ) (x y : ℕ)
      → x < t.t_columns
      → y < t.t_lines
      → Placed p f
      → Went (go t p x y) f x y
  unfolding rel_move
  go-Went p f x y c l s =
      let p1 = record p { tc_col = x; tc_line = y } in
      let s1 = aim p f x y p.tc_col p.tc_line s.shown in
      let on : (leb t.t_lines y || leb t.t_columns x) ≡ false = ground arith in
      elim (Bool-cases (x == 0 && y == p.tc_line + 1)) [
        | inl down ↦
            let here : x ≡ 0 = ground arith in
            let below : y ≡ p.tc_line + 1 = ground arith in
            let s2 = newline-Shown t term start p1 f p.tc_col p.tc_line (omega arith) s1 in
            elim (Bool-cases (p.tc_col == 0)) [
              | inl z ↦
                  let col : p.tc_col ≡ x = ground arith in
                  rw (on, down, z)
                    (went p f x y newline (
                      subst (λ a. Shown t term start (emit p1 newline) f a y) col
                        (subst (λ b. Shown t term start (emit p1 newline) f p.tc_col b) (sym below)
                          s2)))
              | inr nz ↦
                  rw (on, down, nz)
                    (record {
                      shown =
                          subst
                            (λ a. Shown t term start (emit (emit p1 newline) carriage_return) f a y)
                            (sym here)
                            (subst
                              (λ b.
                                Shown t term start (emit (emit p1 newline) carriage_return) f 0 b)
                              (sym below)
                              (carriage_return-Shown t term start (emit p1 newline) f p.tc_col
                                (p.tc_line + 1) s2));
                      to_col = unfold emit in refl;
                      to_line = unfold emit in refl;
                    })
            ]
        | inr not_down ↦ elim (Bool-cases (x == 0 && y == p.tc_line)) [
          | inl home ↦
              let here : x ≡ 0 = ground arith in
              let level : p.tc_line ≡ y = ground arith in
              elim (Bool-cases (p.tc_col == 0)) [
                | inl z ↦
                    let col : p.tc_col ≡ x = ground arith in
                    rw (on, not_down, home, z)
                      (record {
                        shown =
                            subst (λ a. Shown t term start p1 f a y) col
                              (subst (λ b. Shown t term start p1 f p.tc_col b) level s1);
                        to_col = refl;
                        to_line = refl;
                      })
                | inr nz ↦
                    rw (on, not_down, home, nz)
                      (went p f x y carriage_return (
                        subst (λ a. Shown t term start (emit p1 carriage_return) f a y) (sym here)
                          (subst (λ b. Shown t term start (emit p1 carriage_return) f 0 b) level
                            (carriage_return-Shown t term start p1 f p.tc_col p.tc_line s1))))
              ]
          | inr not_home ↦ elim (Bool-cases (p.tc_col == x && p.tc_line == y)) [
            | inl same ↦
                let col : p.tc_col ≡ x = ground arith in
                let level : p.tc_line ≡ y = ground arith in
                rw (on, not_down, not_home, same)
                  (record {
                    shown =
                        subst (λ a. Shown t term start p1 f a y) col
                          (subst (λ b. Shown t term start p1 f p.tc_col b) level s1);
                    to_col = refl;
                    to_line = refl;
                  })
            | inr other ↦ elim (Bool-cases (x + 1 == p.tc_col && y == p.tc_line)) [
              | inl left ↦
                  let col : p.tc_col ≡ x + 1 = ground arith in
                  let level : p.tc_line ≡ y = ground arith in
                  rw (on, not_down, not_home, other, left)
                    (went p f x y cursor_left (
                      cursor_left-Shown t term start p1 f x y (
                        subst (λ a. Shown t term start p1 f a y) col
                          (subst (λ b. Shown t term start p1 f p.tc_col b) level s1))))
              | inr far ↦
                  rw (on, not_down, not_home, other, far)
                    (went p f x y (cursor_to x y)
                      (cursor_to-Shown t term start p1 f p.tc_col p.tc_line x y c l s1))
            ]
          ]
        ]
      ]
