-- ===== src/Screen/Places.antt =====
-- A terminal that is a grid of places.
use firebird_bbs.Base.{
  ℕ, ◌+◌, ◌-◌, ◌≡◌, ◌≢◌, refl, ap, true, false, ◌&&◌, leb, ◌==◌, ==_iff, if◌then◌else◌, arith,
  Bool-cases, inl, inr,
}
use firebird_bbs.Screen.Terminal.{
  Command, send_char, newline, carriage_return, cursor_left, cursor_to, clear_all, clear_eol,
  scroll_back, stand_up, stand_down, Terminal,
}

pub record Grid : Type 0 where
  pub places : ℕ → ℕ → ℕ
  pub y : ℕ
  pub x : ℕ

abbrev pub grid_step : ℕ → Command → Grid → Grid
grid_step height (send_char c) g = record g {
  places = λ i k. if i == g.y && k == g.x then c else g.places i k;
  x = g.x + 1;
}
grid_step height newline g =
    if g.y + 1 == height
    then record g { places = λ i k. if i == g.y then b' ' else g.places (i + 1) k }
    else record g { y = g.y + 1 }
grid_step height carriage_return g = record g { x = 0 }
grid_step height cursor_left g = record g { x = g.x - 1 }
grid_step height (cursor_to x y) g = record g { x = x; y = y }
grid_step height clear_all g = record { places = λ i k. b' '; y = 0; x = 0 }
grid_step height clear_eol g = record g {
  places = λ i k. if i == g.y && leb g.x k then b' ' else g.places i k;
}
grid_step height scroll_back g = record g {
  places = λ i k. if i == 0 then b' ' else g.places (i - 1) k;
  y = 0;
}
grid_step height stand_up g = g
grid_step height stand_down g = g

pub self : (i : ℕ) → (i == i) ≡ true
self i = ground arith

pub apart : (i j : ℕ) → i ≢ j → (i == j) ≡ false
apart i j h = elim (Bool-cases (i == j)) [ inl e ↦ absurd (h ((==_iff i j).0 e)) | inr e ↦ e ]

abbrev pub grid : (height width : ℕ) → Terminal height width
grid height width = record {
  T = Grid;
  step = grid_step height;
  shown = λ g. g.places;
  line = λ g. g.y;
  col = λ g. g.x;
  char_here = λ c g h. rw (self g.y, self g.x) refl;
  char_line = λ c g i k h. rw (apart i g.y h) refl;
  char_col = λ c g i k h. let e : (i == g.y && k == g.x) ≡ false = ground arith in rw e refl;
  char_step = λ c g h. (refl, refl);
  newline_down =
      λ g h. let e : (g.y + 1 == height) ≡ false = ground arith in rw e (λ i k. refl, refl, refl);
  newline_end = λ g h.
      let e : (g.y + 1 == height) ≡ true = ground arith in
      rw e (
        λ i k l. rw (apart i g.y (λ q. absurd (omega arith))) refl,
        λ k. rw (self g.y) refl,
        refl,
        refl,
      );
  carriage_return_to = λ g. (λ i k. refl, refl, refl);
  backspace_to = λ g h. (λ i k. refl, refl, refl);
  move_to_at = λ g x y h l. (λ i k. refl, refl, refl);
  clear_all_to = λ g. (λ i k. refl, refl, refl);
  clear_eol_behind = λ g k h. let e : (g.y == g.y && leb g.x k) ≡ true = ground arith in rw e refl;
  clear_eol_before = λ g i k h. let e : (i == g.y && leb g.x k) ≡ false = ground arith in rw e refl;
  clear_eol_line = λ g i k h. rw (apart i g.y h) refl;
  clear_eol_at = λ g. (refl, refl);
  stand_up_to = λ g. (λ i k. refl, refl, refl);
  stand_down_to = λ g. (λ i k. refl, refl, refl);
  scroll_back_to = λ g h. (
    λ i k.
        let e : (i + 1 == 0) ≡ false = ground arith in rw e (ap (λ a. g.places a k) (omega arith)),
    λ k. refl,
    refl,
    refl,
  );
}
