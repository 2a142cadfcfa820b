-- ===== src/Screen/Uses.antt =====
-- A use of bbssrc/src/screen.c from `init_screen` on: the calls of its operations, one after the other, by a
-- program that minds where it writes, and what the terminal shows after each `refresh`.
use firebird_bbs.Base.{ℕ, ◌≤◌, ◌<◌, ◌≡◌, false, Bool-cases, inl, inr, ◌==◌}
use firebird_bbs.Screen.{
  Screen, Setup, init_screen, move, clear, clrtoeol, clrtobot, inc, dec, clrstandout, outc, scroll,
  rscroll, standout, standend,
}
use firebird_bbs.Screen.Terminal.{Terminal}
use firebird_bbs.Screen.Refresh.{Pen, redoscr, refresh, size}
use firebird_bbs.Screen.Shows.{InStep, Refreshed, redoscr-Refreshed, refresh-Refreshed}
use firebird_bbs.Screen.Writing.{
  Fits, Cuts, outc-InStep, clrtoeol-InStep, standout-InStep, standend-InStep,
}
use firebird_bbs.Screen.Clearing.{
  init_screen-InStep, clear-InStep, clrtobot-InStep, clrstandout-InStep,
}
use firebird_bbs.Screen.Rolling.{scroll-InStep, rscroll-InStep}

-- A call of an operation. Between two calls of `refresh` the lines that the picture has
-- rolled up, less those that it has rolled down, are never more than the screen has, either way.
pub data Call (t : Setup) : Screen → Pen → Screen → Pen → Type 0 where
  moves : {s : Screen} → {p : Pen} → (y x : ℕ) → Call t s p (move s y x) p
  writes : {s : Screen} → {p : Pen} → (c : ℕ) → 0 < c → Fits t s → Call t s p (outc t s c) p
  clears : {s : Screen} → {p : Pen} → Call t s p (clear s) p
  cuts : {s : Screen} → {p : Pen} → Cuts t s → Call t s p (clrtoeol s) p
  empties : {s : Screen} → {p : Pen} → Call t s p (clrtobot s) p
  stands_out : {s : Screen} → {p : Pen} → s.cur_ln < s.scr_lns → Call t s p (standout t s) p
  stands_back : {s : Screen} → {p : Pen} → s.cur_ln < s.scr_lns → Call t s p (standend t s) p
  dims : {s : Screen} → {p : Pen} → Call t s p (clrstandout s) p
  scrolls :
      {s : Screen}
      → {p : Pen} → (s.docls ≡ false → size (inc s.scrollcnt) ≤ s.scr_lns)
      → Call t s p (scroll s) p
  scrolls_back :
      {s : Screen}
      → {p : Pen} → (s.docls ≡ false → size (dec s.scrollcnt) ≤ s.scr_lns)
      → Call t s p (rscroll s) p
  redraws : {s : Screen} → {p : Pen} → Call t s p (redoscr t s p).0 (redoscr t s p).1
  refreshes :
      {s : Screen}
      → {p : Pen} → (pending : ℕ) → Call t s p (refresh t pending s p).0 (refresh t pending s p).1

-- The calls of a program, the first of which is `init_screen`.
pub data Used (t : Setup) : Screen → Pen → Type 0 where
  begins :
      (s : Screen)
      → (p : Pen) → (scols : ℕ) → 0 < t.t_lines
      → t.t_lines < 256
      → 0 < t.t_columns
      → Used t (init_screen s t.t_lines scols) p
  calls : {s s' : Screen} → {p p' : Pen} → Used t s p → Call t s p s' p' → Used t s' p'

module _ (t : Setup) (term : Terminal t.t_lines t.t_columns) (start : term.T) where
  Call-InStep :
      (s : Screen) (p : Pen) (s' : Screen) (p' : Pen)
      → InStep t term start s p
      → Call t s p s' p'
      → InStep t term start s' p'
  unfolding move refresh
  Call-InStep s p s' p' i (moves y x) = i
  Call-InStep s p s' p' i (writes c shows fits) = outc-InStep t term start s p c shows fits i
  Call-InStep s p s' p' i clears = clear-InStep t term start s p i
  Call-InStep s p s' p' i (cuts fits) = clrtoeol-InStep t term start s p fits i
  Call-InStep s p s' p' i empties = clrtobot-InStep t term start s p i
  Call-InStep s p s' p' i (stands_out h) = standout-InStep t term start s p h i
  Call-InStep s p s' p' i (stands_back h) = standend-InStep t term start s p h i
  Call-InStep s p s' p' i dims = clrstandout-InStep t term start s p i
  Call-InStep s p s' p' i (scrolls way) = scroll-InStep t term start s p way i
  Call-InStep s p s' p' i (scrolls_back way) = rscroll-InStep t term start s p way i
  Call-InStep s p s' p' i redraws = (redoscr-Refreshed t term start s p i).in_step
  Call-InStep s p s' p' i (refreshes pending) = elim (Bool-cases (pending == 0)) [
    | inl e ↦ rw e ((refresh-Refreshed t term start s p i).in_step)
    | inr e ↦ rw e i
  ]

  -- After any calls, `init_screen` first, on a terminal of fewer than 256 lines, the picture and
  -- what the pen has sent to the terminal are in step, whatever the terminal showed at first. Bytes
  -- are written and lines cut only where `Fits` and `Cuts` say that there is room, lines are
  -- highlighted only on the screen, and no more lines than the screen has are rolled between two
  -- calls of `refresh` that find no key waiting.
  pub Used-InStep : (s : Screen) (p : Pen) → Used t s p → InStep t term start s p
  Used-InStep s p (begins s0 q scols some small wide) =
      init_screen-InStep t term start s0 p scols some small wide
  Used-InStep s p (calls {s = s0} {p = p0} u c) = Call-InStep s0 p0 s p (Used-InStep s0 p0 u) c

  -- After any calls of a program that starts with `init_screen`, writes bytes and cuts lines only
  -- where `Fits` and `Cuts` say that there is room, and never rolls by more lines, all in all, than
  -- the screen has between two calls of `refresh` that find no key waiting, one more such `refresh`
  -- makes the terminal show the bytes of the picture, line by line with blanks behind each, puts the
  -- terminal's cursor where the program has put it, if that is on the terminal, and leaves the
  -- picture's text as it is.
  pub Used-Refreshed :
      (s : Screen) (p : Pen) → Used t s p → Refreshed t term start s (refresh t 0 s p)
  Used-Refreshed s p u = refresh-Refreshed t term start s p (Used-InStep s p u)
