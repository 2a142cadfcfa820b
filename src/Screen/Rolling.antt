-- ===== src/Screen/Rolling.antt =====
-- What the operations of bbssrc/src/screen.c that roll the picture do to it: it stays in step with the
-- terminal.
use native.Mathlib.Nat.{mod-eq_of_lt}
use firebird_bbs.Base.Maps.{update, update_self, update_ne}
use firebird_bbs.Base.{
  not, Bool, ℕ, ◌+◌, ◌-◌, ◌%◌, ◌≤◌, ◌<◌, ◌≡◌, sym, ap, ◌∙◌, subst, true, false, ◌||◌, ltb, leb,
  ◌==◌, ==_iff, if◌then◌else◌, arith, Bool-cases, inl, inr,
}
use firebird_bbs.Screen.{
  Line, Screen, Setup, Count, inc, dec, row, set_line, move, clrtoeol_line, clrtoeol, scroll,
  rscroll,
}
use firebird_bbs.Screen.Terminal.{Terminal}
use firebird_bbs.Screen.Refresh.{Pen, is_back, size}
use firebird_bbs.Screen.Accuracy.{Accurate, clrtoeol_line-Accurate}
use firebird_bbs.Screen.Frames.{row_mod, row_ne}
use firebird_bbs.Screen.Scrolling.{will, source_of}
use firebird_bbs.Screen.Turning.{below, above, source_of-inc, will-inc, source_of-dec, will-dec}
use firebird_bbs.Screen.Shows.{Tracks, InStep}
use firebird_bbs.Screen.Clearing.{clrtoeol_line-emptied}

module _ (t : Setup) (term : Terminal t.t_lines t.t_columns) (start : term.T) where
  -- The picture is rolled, and the line that comes in is cleared: it may show nothing, or what it
  -- showed at the last `refresh`.
  rolled :
      (s : Screen) (p : Pen) (roll b : ℕ) (count : Count) (old : ℕ → ℕ) (again : Bool)
      → b < s.scr_lns
      → roll < s.scr_lns
      → ((a : ℕ) → a < s.scr_lns → old a < s.scr_lns)
      → ((a : ℕ) → a < s.scr_lns → (a + roll) % s.scr_lns ≡ row s (old a))
      → (i : InStep t term start s p)
      → ((a k : ℕ)
          → a < s.scr_lns
          → s.docls ≡ false
          → (if a == b then (if again then i.was (old b) k else b' ') else i.should (old a) k)
            ≡ will s.scr_lns count i.shows a k)
      → ((a : ℕ)
          → a < s.scr_lns
          → s.docls ≡ false
          → source_of s.scr_lns s.scrollcnt (old a) ≡ source_of s.scr_lns count a)
      → (s.docls ≡ false → size count ≤ s.scr_lns)
      → Tracks t term start
          (update s.picture
            ((b + roll) % s.scr_lns)
            (clrtoeol_line (s.picture ((b + roll) % s.scr_lns)) 0))
          s.scr_lns
          roll
          count
          s.docls
          p
  rolled s p roll b count old again inside turn low same i tell from few = record {
    shows = i.shows;
    should =
        λ a k. if a == b then (if again then i.was (old b) k else b' ') else i.should (old a) k;
    height = i.height;
    turn = turn;
    short = i.short;
    wide = i.wide;
    rows = λ a h. elim (Bool-cases (a == b)) [
      | inl e ↦
          let q : a ≡ b = (==_iff a b).0 e in
          rw e (
            subst (λ x. Accurate (picture x) (λ k. if again then i.was (old b) k else b' ')) (sym q)
              (entered again))
      | inr e ↦ rw e (stayed i.should i.rows a h e)
    ];
    narrow = λ a h. elim (Bool-cases (a == b)) [
      | inl e ↦
          let q : a ≡ b = (==_iff a b).0 e in
          subst (λ x. (picture x).len < t.t_columns) (sym q)
            (subst (λ x. x.len < t.t_columns) (sym (update_self s.picture j l))
              (unfold clrtoeol_line in i.wide))
      | inr e ↦ subst (λ x. x.len < t.t_columns) (sym (other a h e)) (i.narrow (old a) (low a h))
    ];
    placed = i.placed;
    told = λ e a k h. tell a k h e ∙ ap (λ n. will n count i.shows a k) i.height;
    was = λ a k. i.was (old a) k;
    slots = λ a h. elim (Bool-cases (a == b)) [
      | inl e ↦
          let q : a ≡ b = (==_iff a b).0 e in
          subst (λ x. Accurate (picture x) (i.was (old x))) (sym q) (entered true)
      | inr e ↦ stayed i.was i.slots a h e
    ];
    link = λ e a k h. i.link e (old a) k (low a h) ∙ ap (λ x. i.shows x k) (from a h e);
    few = few;
  }
    where
      j : ℕ
      j = (b + roll) % s.scr_lns

      l : Line
      l = clrtoeol_line (s.picture ((b + roll) % s.scr_lns)) 0

      picture : ℕ → Line
      picture a = update s.picture j l ((a + roll) % s.scr_lns)

      other : (a : ℕ) → a < s.scr_lns → (a == b) ≡ false → picture a ≡ s.picture (row s (old a))
      other a h e =
          update_ne s.picture j l ((a + roll) % s.scr_lns)
            (row_ne a b roll s.scr_lns h inside turn (λ q. absurd (ground arith)))
          ∙ ap s.picture (same a h)

      stayed :
          (c : ℕ → ℕ → ℕ)
          → ((a : ℕ) → a < s.scr_lns → Accurate (s.picture (row s a)) (c a))
          → (a : ℕ) → a < s.scr_lns
          → (a == b) ≡ false
          → Accurate (picture a) (c (old a))
      stayed c rows a h e =
          subst (λ x. Accurate x (c (old a))) (sym (other a h e)) (rows (old a) (low a h))

      before : Accurate (s.picture j) (i.was (old b))
      before =
          subst (λ x. Accurate (s.picture x) (i.was (old b))) (sym (same b inside))
            (i.slots (old b) (low b inside))

      entered : (again : Bool) → Accurate (picture b) (λ k. if again then i.was (old b) k else b' ')
      entered true =
          subst (λ x. Accurate x (i.was (old b))) (sym (update_self s.picture j l))
            (clrtoeol_line-Accurate (s.picture j) (i.was (old b)) before 0 (ground arith)
              (omega arith))
      entered false =
          subst (λ x. Accurate x (λ k. b' ')) (sym (update_self s.picture j l))
            (clrtoeol_line-emptied (s.picture j) (i.was (old b)) before)

  -- `scroll`, while no more than the lines of the screen have been put off.
  pub scroll-InStep :
      (s : Screen) (p : Pen)
      → (s.docls ≡ false → size (inc s.scrollcnt) ≤ s.scr_lns)
      → InStep t term start s p
      → InStep t term start (scroll s) p
  unfolding scroll move clrtoeol set_line
  scroll-InStep s p few i =
      let n = s.scr_lns in
      let roll = if leb n (s.roll + 1) then s.roll + 1 - n else s.roll + 1 in
      let turn : roll < n = let h = i.turn in ground arith in
      let ln : (n - 1) % 256 ≡ n - 1 = mod-eq_of_lt (omega (arith, i.short)) in
      let low : (a : ℕ) → a < n → below n a < n = λ a h. ground arith in
      let first : below n (n - 1) ≡ 0 = ground arith in
      let done =
        rolled s p roll (n - 1) (inc s.scrollcnt) (below n) (is_back s.scrollcnt)
          (omega (arith, turn)) turn low
          (λ a h.
            let x = row_mod a roll n h turn in
            let y = row_mod (below n a) s.roll n (low a h) i.turn in ground arith)
          i
          (λ a k h e.
            will-inc n s.scrollcnt i.shows i.should a k (i.was (below n (n - 1)) k) (i.few e)
              (few e)
              (λ b m l. i.told e b m l ∙ ap (λ n. will n s.scrollcnt i.shows b m) (sym i.height))
              (i.link e (below n (n - 1)) k (low (n - 1) (omega (arith, turn)))
                ∙ ap (λ b. i.shows (source_of n s.scrollcnt b) k) first)
              h)
          (λ a h e. source_of-inc n s.scrollcnt a (i.few e) (few e) h) few in
      rw ln done

  -- `rscroll`, likewise.
  pub rscroll-InStep :
      (s : Screen) (p : Pen)
      → (s.docls ≡ false → size (dec s.scrollcnt) ≤ s.scr_lns)
      → InStep t term start s p
      → InStep t term start (rscroll s) p
  unfolding rscroll move clrtoeol set_line
  rscroll-InStep s p few i =
      let n = s.scr_lns in
      let roll = if ltb 0 s.roll then s.roll - 1 else n - 1 in
      let turn : roll < n = let h = i.turn in ground arith in
      let low : (a : ℕ) → a < n → above n a < n = λ a h. ground arith in
      rolled s p roll 0 (dec s.scrollcnt) (above n)
        (not (is_back s.scrollcnt || size s.scrollcnt == 0)) (omega (arith, turn)) turn low
        (λ a h.
          let x = row_mod a roll n h turn in
          let y = row_mod (above n a) s.roll n (low a h) i.turn in ground arith)
        i
        (λ a k h e.
          will-dec n s.scrollcnt i.shows i.should a k (i.was (n - 1) k) (i.few e) (few e)
            (λ b m l. i.told e b m l ∙ ap (λ n. will n s.scrollcnt i.shows b m) (sym i.height))
            (i.link e (n - 1) k (omega (arith, turn))) h)
        (λ a h e. source_of-dec n s.scrollcnt a (i.few e) (few e) h) few
