-- ===== src/Screen/Clearing.antt =====
-- What the operations of bbssrc/src/screen.c that clear lines do to the picture: it stays in step with the
-- terminal.
use native.Mathlib.Nat.{mod-eq_of_lt, mod-lt}
use firebird_bbs.Base.{
  ℕ, zero, suc, ◌+◌, ◌-◌, ◌%◌, ◌≤◌, ◌<◌, ◌≡◌, refl, true, false, ltb, leb, arith, Bool-cases, inl,
  inr,
}
use firebird_bbs.Screen.{
  Line, Screen, Setup, row, set_line, no_line, init_screen, move, clear, clrtoeol_line,
  clrtobot_line, clrtobot_rows, clrtobot, clrstandout,
}
use firebird_bbs.Screen.Terminal.{Terminal}
use firebird_bbs.Screen.Refresh.{Pen}
use firebird_bbs.Screen.Accuracy.{Accurate, clrtobot_line-Accurate}
use firebird_bbs.Screen.Shows.{InStep}
use firebird_bbs.Screen.Writing.{change_row}

-- A line that has nothing in it, on a line of the terminal that has nothing in it.
pub emptied-Accurate :
    (l : Line)
    → l.len ≡ 0
    → l.oldlen ≤ 255
    → l.stand ≡ false
    → (l.modified ≡ true → l.smod ≤ l.emod)
    → Accurate l (λ k. b' ')
emptied-Accurate l none fits plain order = record {
  text = λ k h same. absurd (omega (arith, none));
  rest = λ k h. refl;
  old_fits = fits;
  fits = omega (arith, none);
  stands = λ e. absurd cc;
  order = order;
}

-- A line that is cleared from its start.
pub clrtoeol_line-emptied :
    (l : Line) (r : ℕ → ℕ) → Accurate l r → Accurate (clrtoeol_line l 0) (λ k. b' ')
unfolding clrtoeol_line
clrtoeol_line-emptied l r a =
    let first : leb 0 l.sso ≡ true = ground arith in
    let rest : ltb l.oldlen 0 ≡ false = ground arith in
    rw (first, rest)
      (emptied-Accurate (record l { len = 0; stand = false }) refl a.old_fits refl a.order)

pub plain-Accurate : (l : Line) (r : ℕ → ℕ) → Accurate l r → Accurate (record l { stand = false }) r
plain-Accurate l r a = record {
  text = a.text;
  rest = a.rest;
  old_fits = a.old_fits;
  fits = a.fits;
  stands = λ e. absurd cc;
  order = a.order;
}

module _ (t : Setup) (term : Terminal t.t_lines t.t_columns) (start : term.T) where
  -- A new screen is in step with any terminal, since the first `refresh` clears it.
  pub init_screen-InStep :
      (s : Screen) (p : Pen) (scols : ℕ)
      → 0 < t.t_lines
      → t.t_lines < 256
      → 0 < t.t_columns
      → InStep t term start (init_screen s t.t_lines scols) p
  unfolding init_screen
  init_screen-InStep s p scols some small wide =
      let n : t.t_lines % 256 ≡ t.t_lines = mod-eq_of_lt small in
      record {
        shows = λ a k. b' ';
        should = λ a k. b' ';
        height = n;
        turn = omega (arith, n);
        short = omega (arith, n);
        wide = wide;
        rows = λ a h. emptied-Accurate _ refl (omega arith) refl (λ e. absurd cc);
        narrow = λ a h. wide;
        placed = λ e. absurd cc;
        told = λ e. absurd cc;
        was = λ a k. b' ';
        slots = λ a h. emptied-Accurate _ refl (omega arith) refl (λ e. absurd cc);
        link = λ e. absurd cc;
        few = λ e. absurd cc;
      }

  pub clear-InStep :
      (s : Screen) (p : Pen) → InStep t term start s p → InStep t term start (clear s) p
  unfolding clear move no_line
  clear-InStep s p i = record {
    shows = λ a k. b' ';
    should = λ a k. b' ';
    height = i.height;
    turn = omega (arith, i.turn);
    short = i.short;
    wide = i.wide;
    rows = blank_rows;
    narrow = λ a h. let e : ltb ((a + 0) % s.scr_lns) s.scr_lns ≡ true = inside a h in rw e i.wide;
    placed = λ e. absurd cc;
    told = λ e. absurd cc;
    was = λ a k. b' ';
    slots = blank_rows;
    link = λ e. absurd cc;
    few = λ e. absurd cc;
  }
    where
      inside : (a : ℕ) → a < s.scr_lns → ltb ((a + 0) % s.scr_lns) s.scr_lns ≡ true
      inside a h =
          let m : (a + 0) % s.scr_lns < s.scr_lns = mod-lt (a + 0) (omega arith) in ground arith

      blank_rows :
          (a : ℕ) → a < s.scr_lns → Accurate ((clear s).picture ((a + 0) % s.scr_lns)) (λ k. b' ')
      blank_rows a h = rw (inside a h) (
          emptied-Accurate (no_line (s.picture ((a + 0) % s.scr_lns))) refl (omega arith) refl
            (λ e. absurd cc))

  pub clrstandout-InStep :
      (s : Screen) (p : Pen) → InStep t term start s p → InStep t term start (clrstandout s) p
  unfolding clrstandout
  clrstandout-InStep s p i = record {
    shows = i.shows;
    should = i.should;
    height = i.height;
    turn = i.turn;
    short = i.short;
    wide = i.wide;
    rows = keep i.should i.rows;
    narrow = λ a h. elim (Bool-cases (ltb (row s a) s.scr_lns)) [
      | inl e ↦ rw e (i.narrow a h)
      | inr e ↦ rw e (i.narrow a h)
    ];
    placed = i.placed;
    told = i.told;
    was = i.was;
    slots = keep i.was i.slots;
    link = i.link;
    few = i.few;
  }
    where
      keep :
          (c : ℕ → ℕ → ℕ)
          → ((a : ℕ) → a < s.scr_lns → Accurate (s.picture (row s a)) (c a))
          → (a : ℕ) → a < s.scr_lns
          → Accurate ((clrstandout s).picture (row s a)) (c a)
      keep c old a h = elim (Bool-cases (ltb (row s a) s.scr_lns)) [
        | inl e ↦ rw e (plain-Accurate (s.picture (row s a)) (c a) (old a h))
        | inr e ↦ rw e (old a h)
      ]

  clrtobot_rows-InStep :
      (k : ℕ) (s : Screen) (p : Pen) (b : ℕ)
      → b + k ≤ s.scr_lns
      → InStep t term start s p
      → InStep t term start (clrtobot_rows k s b) p
  unfolding clrtobot_rows set_line
  clrtobot_rows-InStep zero s p b h i = i
  clrtobot_rows-InStep (suc k) s p b h i =
      let l = s.picture (row s b) in
      let inside : b < s.scr_lns = omega arith in
      clrtobot_rows-InStep k (set_line s (row s b) (clrtobot_line l)) p (b + 1) (omega arith) (
        change_row t term start s p b (clrtobot_line l) inside i
          (λ r a. clrtobot_line-Accurate l r a) (unfold clrtobot_line in i.wide))

  pub clrtobot-InStep :
      (s : Screen) (p : Pen) → InStep t term start s p → InStep t term start (clrtobot s) p
  unfolding clrtobot
  clrtobot-InStep s p i = elim (Bool-cases (ltb s.cur_ln s.scr_lns)) [
    | inl e ↦ clrtobot_rows-InStep (s.scr_lns - s.cur_ln) s p s.cur_ln (ground arith) i
    | inr e ↦
        let none : s.scr_lns - s.cur_ln ≡ 0 = ground arith in rw none (unfold clrtobot_rows in i)
  ]
