-- ===== src/Screen/Rows.antt =====
-- One line of the picture, as `redoscr` and `refresh` of bbssrc/src/screen.c bring it to the terminal.
use firebird_bbs.Base.{
  ℕ, ◌+◌, ◌-◌, ◌≤◌, ◌<◌, ◌≡◌, refl, sym, ◌∙◌, min, Bool, true, false, ◌&&◌, ltb, leb, ◌==◌,
  if◌then◌else◌, arith, Bool-cases, inl, inr,
}
use firebird_bbs.Screen.{Line, Setup}
use firebird_bbs.Screen.Terminal.{clear_eol, Terminal}
use firebird_bbs.Screen.Refresh.{Pen, emit, go, draw, wrap_pen, draw_changes, clear_rest}
use firebird_bbs.Screen.Pens.{paint, wipe, Shown, clear_eol-Shown}
use firebird_bbs.Screen.Going.{Placed, Went, Went-Placed, go-Went}
use firebird_bbs.Screen.Drawing.{draw-Shown, draw-SameNotes}
use firebird_bbs.Screen.Accuracy.{Accurate, Exact}

-- What the terminal shows once the changed part of line `i` has been sent, and the rest wiped.
abbrev pub is_changed : Line → Bool
is_changed l = l.modified && ltb l.smod l.len

abbrev pub last_of : Line → ℕ
last_of l = min l.emod (l.len - 1)

abbrev pub redrawn : (ℕ → ℕ → ℕ) → ℕ → Line → ℕ → ℕ → ℕ
redrawn f i l = if is_changed l then paint f i l.smod (last_of l + 1) l.cells else f

abbrev pub wiped : (ℕ → ℕ → ℕ) → ℕ → Line → ℕ → ℕ → ℕ
wiped f i l = if ltb l.len l.oldlen then wipe (redrawn f i l) i l.len else redrawn f i l

pub wiped-Exact : (f : ℕ → ℕ → ℕ) (i : ℕ) (l : Line) → Accurate l (f i) → Exact l (wiped f i l i)
wiped-Exact f i l a = elim (Bool-cases (is_changed l)) [
  | inl c ↦ record {
    text = λ k h. elim (Bool-cases (ltb l.len l.oldlen)) [
      | inl w ↦
          let before : (i == i && leb l.len k) ≡ false = ground arith in
          rw (w, c, before) (drawn k h c)
      | inr w ↦ rw (w, c) (drawn k h c)
    ];
    rest = λ k h. elim (Bool-cases (ltb l.len l.oldlen)) [
      | inl w ↦ rw (w, c) (ground arith)
      | inr w ↦ rw (w, c) (let b = a.rest k (ground arith) in ground arith)
    ];
  }
  | inr c ↦ record {
    text = λ k h. elim (Bool-cases (ltb l.len l.oldlen)) [
      | inl w ↦ rw (w, c) (let b = a.text k h (ground arith) in ground arith)
      | inr w ↦ rw (w, c) (a.text k h (ground arith))
    ];
    rest = λ k h. elim (Bool-cases (ltb l.len l.oldlen)) [
      | inl w ↦ rw (w, c) (ground arith)
      | inr w ↦ rw (w, c) (a.rest k (ground arith))
    ];
  }
]
  where
    drawn :
        (k : ℕ)
        → k < l.len
        → is_changed l ≡ true
        → paint f i l.smod (last_of l + 1) l.cells i k ≡ l.cells k
    drawn k h c = elim (Bool-cases (i == i && leb l.smod k && ltb k (last_of l + 1))) [
      | inl e ↦ rw e refl
      | inr e ↦ rw e (a.text k h (ground arith))
    ]

pub wiped_other :
    (f : ℕ → ℕ → ℕ) (i a k : ℕ) (l : Line) → (a == i) ≡ false → wiped f i l a k ≡ f a k
wiped_other f i a k l off = elim (Bool-cases (is_changed l)) [
  | inl c ↦ elim (Bool-cases (ltb l.len l.oldlen)) [
    | inl w ↦ rw (w, c, off) refl
    | inr w ↦ rw (w, c, off) refl
  ]
  | inr c ↦ elim (Bool-cases (ltb l.len l.oldlen)) [
    | inl w ↦ rw (w, c, off) refl
    | inr w ↦ rw (w, c) refl
  ]
]

module _ (t : Setup) (term : Terminal t.t_lines t.t_columns) (start : term.T) where
  -- Text up to a column of line `i` that the terminal has.
  pub wrap_pen-Placed :
      (wraps : Bool) (p q : Pen) (f : ℕ → ℕ → ℕ) (x y col : ℕ)
      → Went t term start p f x y
      → y < t.t_lines
      → col < t.t_columns
      → (g : ℕ → ℕ → ℕ) → Shown t term start q g col y
      → q.tc_line ≡ p.tc_line
      → Placed t term start (wrap_pen t wraps q col) g
  unfolding wrap_pen
  wrap_pen-Placed wraps p q f x y col w inside h g s e =
      let fits : ltb col t.t_columns ≡ true = ground arith in
      let here : y ≡ q.tc_line = sym (e ∙ w.to_line) in
      rw fits (record {
        shown = record { all = s.all; line = s.line ∙ here; col = s.col };
        col_in = h;
        line_in = omega arith;
      })

  draw_changes-Placed :
      (p : Pen) (f : ℕ → ℕ → ℕ) (l : Line) (i : ℕ)
      → is_changed l ≡ true
      → Accurate l (f i)
      → l.len < t.t_columns
      → i < t.t_lines
      → Placed t term start p f
      → Placed t term start (draw_changes t p l i) (paint f i l.smod (last_of l + 1) l.cells)
  unfolding draw_changes
  draw_changes-Placed p f l i c a narrow inside s =
      let at : l.smod < l.len = ground arith in
      let ordered : l.smod ≤ l.emod = a.order (ground arith) in
      let went = go-Went t term start p f l.smod i (omega arith) inside s in
      let p1 = go t p l.smod i in
      let drawn =
        draw-Shown t term start p1 f l l.smod (last_of l + 1) i (omega arith) (omega arith) a.stands
          went.shown in
      wrap_pen-Placed t.automargins p1 (draw p1 l l.smod (last_of l + 1)) f l.smod i (last_of l + 1)
        went inside (omega arith) (paint f i l.smod (last_of l + 1) l.cells) drawn
        (draw-SameNotes p1 l l.smod (last_of l + 1)).line

  clear_rest-Placed :
      (p : Pen) (g : ℕ → ℕ → ℕ) (l : Line) (i : ℕ)
      → l.len < t.t_columns
      → i < t.t_lines
      → Placed t term start p g
      → Placed t term start (clear_rest t p l i) (if ltb l.len l.oldlen then wipe g i l.len else g)
  unfolding clear_rest emit
  clear_rest-Placed p g l i narrow inside s = elim (Bool-cases (ltb l.len l.oldlen)) [
    | inr e ↦ rw e s
    | inl e ↦
        let w = go-Went t term start p g l.len i narrow inside s in
        let p1 = go t p l.len i in
        rw e (
          Went-Placed t term start (emit p1 clear_eol) (wipe g i l.len) l.len i narrow inside
            (record {
              shown = clear_eol-Shown t term start p1 g l.len i w.shown;
              to_col = w.to_col;
              to_line = w.to_line;
            }))
  ]

  -- A turn of the loop of `refresh`.
  pub row-Placed :
      (p : Pen) (f : ℕ → ℕ → ℕ) (l : Line) (i : ℕ)
      → Accurate l (f i)
      → l.len < t.t_columns
      → i < t.t_lines
      → Placed t term start p f
      → Placed t term start
          (clear_rest t (if is_changed l then draw_changes t p l i else p) l i)
          (wiped f i l)
  row-Placed p f l i a narrow inside s = elim (Bool-cases (is_changed l)) [
    | inl c ↦ rw c (
        clear_rest-Placed (draw_changes t p l i) _ l i narrow inside
          (draw_changes-Placed p f l i c a narrow inside s))
    | inr c ↦ rw c (clear_rest-Placed p f l i narrow inside s)
  ]
