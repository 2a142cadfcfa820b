-- ===== src/Screen/Grids.antt =====
-- What the operations of bbssrc/src/screen.c that clear lines or roll the picture do to its text.
use native.Mathlib.Nat.{mod-eq_of_lt}
use firebird_bbs.Base.{
  ℕ, zero, suc, ◌+◌, ◌-◌, ◌%◌, ◌≤◌, ◌<◌, ◌≡◌, refl, sym, ap, ◌∙◌, true, false, ◌&&◌, ltb, leb, ◌==◌,
  ==_iff, if◌then◌else◌, arith, Bool-cases, inl, inr,
}
use firebird_bbs.Screen.{
  Line, Screen, row, set_line, fill, move, clrtoeol_line, clrtoeol, clrtobot_line, clrtobot_rows,
  clrtobot, scroll, rscroll,
}
use firebird_bbs.Screen.Frames.{row_mod}
use firebird_bbs.Screen.Text.{line_text, text, text_set_line}

-- A line cleared from its start shows nothing.
cleared_line_text : (l : Line) (k : ℕ) → line_text (clrtoeol_line l 0) k ≡ b' '
unfolding clrtoeol_line
cleared_line_text l k = let e : ltb k 0 ≡ false = ground arith in rw e refl

fill_off :
    (cells : ℕ → ℕ) (from to k : ℕ)
    → (leb from k && ltb k to) ≡ false
    → fill cells from to k ≡ cells k
unfolding fill
fill_off cells from to k e = rw e refl

clrtoeol_line_text :
    (l : Line) (col k : ℕ)
    → col ≤ l.len
    → line_text (clrtoeol_line l col) k ≡ (if leb col k then b' ' else line_text l k)
unfolding clrtoeol_line
clrtoeol_line_text l col k h = elim (Bool-cases (leb col k)) [
  | inl e ↦ let out : ltb k col ≡ false = ground arith in rw (e, out) refl
  | inr e ↦
      let inside : ltb k col ≡ true = ground arith in
      let old : ltb k l.len ≡ true = ground arith in
      let same : (leb l.len k && ltb k (col + 1)) ≡ false = ground arith in
      elim (Bool-cases (ltb l.oldlen col)) [
        | inl f ↦ elim (Bool-cases (leb col l.sso)) [
          | inl g ↦ rw (g, e, inside, old, f) (fill_off l.cells l.len (col + 1) k same)
          | inr g ↦ rw (g, e, inside, old, f) (fill_off l.cells l.len (col + 1) k same)
        ]
        | inr f ↦ elim (Bool-cases (leb col l.sso)) [
          | inl g ↦ rw (e, inside, old, f, g) refl
          | inr g ↦ rw (e, inside, old, f, g) refl
        ]
      ]
]

-- `clrtoeol`, where the cursor is not behind the end of its line.
pub clrtoeol_text :
    (s : Screen) (a k : ℕ)
    → s.roll < s.scr_lns
    → s.cur_ln < s.scr_lns
    → a < s.scr_lns
    → s.cur_col ≤ (s.picture (row s s.cur_ln)).len
    → text (clrtoeol s) a k ≡ (if a == s.cur_ln && leb s.cur_col k then b' ' else text s a k)
unfolding clrtoeol set_line
clrtoeol_text s a k turn inside h held =
    let l = s.picture (row s s.cur_ln) in
    text_set_line s s.cur_ln a k (clrtoeol_line l s.cur_col) turn inside h
    ∙ elim (Bool-cases (a == s.cur_ln)) [
      | inl e ↦
          let q : a ≡ s.cur_ln = (==_iff a s.cur_ln).0 e in
          rw e (
            clrtoeol_line_text l s.cur_col k held
            ∙ ap (λ b. if leb s.cur_col k then b' ' else text s b k) (sym q))
      | inr e ↦ rw e refl
    ]

-- The screen, rolled by a line.
abbrev turned : Screen → ℕ → Screen
turned s roll = record s { roll = roll }

turned_text :
    (s : Screen) (roll b a old k : ℕ)
    → roll < s.scr_lns
    → b < s.scr_lns
    → a < s.scr_lns
    → ((a == b) ≡ false → (a + roll) % s.scr_lns ≡ row s old)
    → text
        (set_line
          (turned s roll)
          (row (turned s roll) b)
          (clrtoeol_line (s.picture (row (turned s roll) b)) 0))
        a
        k
      ≡ (if a == b then b' ' else text s old k)
turned_text s roll b a old k turn inside h same =
    text_set_line (turned s roll) b a k (clrtoeol_line (s.picture (row (turned s roll) b)) 0) turn
      inside h
    ∙ elim (Bool-cases (a == b)) [
      | inl e ↦ rw e (cleared_line_text (s.picture (row (turned s roll) b)) k)
      | inr e ↦ rw e (ap (λ j. line_text (s.picture j) k) (same e))
    ]

-- `scroll`: each line of the picture shows what the line below it showed, and the last one nothing.
pub scroll_text :
    (s : Screen) (a k : ℕ)
    → s.roll < s.scr_lns
    → s.scr_lns < 256
    → a < s.scr_lns
    → text (scroll s) a k ≡ (if a == s.scr_lns - 1 then b' ' else text s (a + 1) k)
unfolding scroll move clrtoeol set_line
scroll_text s a k turn short h =
    let n = s.scr_lns in
    let roll = if leb n (s.roll + 1) then s.roll + 1 - n else s.roll + 1 in
    let rolled : roll < n = ground arith in
    let ln : (n - 1) % 256 ≡ n - 1 = mod-eq_of_lt (omega arith) in
    let done = turned_text s roll (n - 1) a (a + 1) k rolled (omega arith) h (λ e.
      let x = row_mod a roll n h rolled in
      let y = row_mod (a + 1) s.roll n (ground arith) turn in ground arith) in
    rw ln done

-- `rscroll`: each line shows what the line above it showed, and the first one nothing.
pub rscroll_text :
    (s : Screen) (a k : ℕ)
    → s.roll < s.scr_lns
    → a < s.scr_lns
    → text (rscroll s) a k ≡ (if a == 0 then b' ' else text s (a - 1) k)
unfolding rscroll move clrtoeol set_line
rscroll_text s a k turn h =
    let n = s.scr_lns in
    let roll = if ltb 0 s.roll then s.roll - 1 else n - 1 in
    let rolled : roll < n = ground arith in
    turned_text s roll 0 a (a - 1) k rolled (omega arith) h (λ e.
      let x = row_mod a roll n h rolled in
      let y = row_mod (a - 1) s.roll n (omega arith) turn in ground arith)

clrtobot_rows_text :
    (n : ℕ) (s : Screen) (b a k : ℕ)
    → s.roll < s.scr_lns
    → b + n ≤ s.scr_lns
    → a < s.scr_lns
    → text (clrtobot_rows n s b) a k ≡ (if leb b a && ltb a (b + n) then b' ' else text s a k)
unfolding clrtobot_rows set_line clrtobot_line
clrtobot_rows_text zero s b a k turn h inside =
    let e : (leb b a && ltb a (b + 0)) ≡ false = ground arith in rw e refl
clrtobot_rows_text (suc n) s b a k turn h inside =
    let l = clrtobot_line (s.picture (row s b)) in
    let e = text_set_line s b a k l turn (omega arith) inside in
    let rest =
      clrtobot_rows_text n (set_line s (row s b) l) (b + 1) a k turn (omega arith) inside in
    rest ∙ elim (Bool-cases (leb (b + 1) a && ltb a (b + 1 + n))) [
      | inl c ↦ let d : (leb b a && ltb a (b + suc n)) ≡ true = ground arith in rw (c, d) refl
      | inr c ↦ elim (Bool-cases (a == b)) [
        | inl q ↦
            let d : (leb b a && ltb a (b + suc n)) ≡ true = ground arith in
            let none : ltb k 0 ≡ false = ground arith in rw (c, d) (rw (q, none) at e)
        | inr q ↦
            let d : (leb b a && ltb a (b + suc n)) ≡ false = ground arith in rw (c, d) (rw q at e)
      ]
    ]

-- `clrtobot`: the lines from the cursor's on show nothing, the others what they showed.
pub clrtobot_text :
    (s : Screen) (a k : ℕ)
    → s.roll < s.scr_lns
    → a < s.scr_lns
    → text (clrtobot s) a k ≡ (if leb s.cur_ln a then b' ' else text s a k)
unfolding clrtobot
clrtobot_text s a k turn inside = elim (Bool-cases (ltb s.cur_ln s.scr_lns)) [
  | inl e ↦
      let all : ltb a (s.cur_ln + (s.scr_lns - s.cur_ln)) ≡ true = ground arith in
      clrtobot_rows_text (s.scr_lns - s.cur_ln) s s.cur_ln a k turn (ground arith) inside
      ∙ elim (Bool-cases (leb s.cur_ln a)) [ inl f ↦ rw (f, all) refl | inr f ↦ rw f refl ]
  | inr e ↦
      let none : s.scr_lns - s.cur_ln ≡ 0 = ground arith in
      let f : leb s.cur_ln a ≡ false = ground arith in rw (none, f) (unfold clrtobot_rows in refl)
]
