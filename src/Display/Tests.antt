-- ===== src/Display/Tests.antt =====
-- Runs of the window of bbssrc/src/edit.c: two lines on a terminal that is a grid of places.
use firebird_bbs.Base.Maps.{update}
use firebird_bbs.Base.{
  ℕ, ◌<◌, ◌≡◌, refl, true, false, some, none, List, [], ◌∷◌, ltb, if◌then◌else◌, arith,
}
use firebird_bbs.Editor.{Buffer}
use firebird_bbs.Editor.Heap.{Cell, line_of, Seg}
use firebird_bbs.Screen.{Screen, Setup, init_screen}
use firebird_bbs.Screen.Refresh.{refresh}
use firebird_bbs.Screen.Pens.{view}
use firebird_bbs.Screen.Shows.{InStep}
use firebird_bbs.Screen.Clearing.{init_screen-InStep}
use firebird_bbs.Screen.Text.{text}
use firebird_bbs.Screen.Typing.{overlay}
use firebird_bbs.Screen.Places.{grid}
use firebird_bbs.Screen.Tests.{dashes, unset, first_pen}
use firebird_bbs.Display.{shift_of, display_buffer}
use firebird_bbs.Display.Rows.{Wide}
use firebird_bbs.Display.Window.{window, display_buffer_shown}

abbrev tall : Setup
tall = record {
  t_lines = 6;
  t_columns = 100;
  automargins = true;
  has_scrollrev = true;
  has_standout = true;
  iscolor = false;
  showansi = true;
}

-- The second line has a colour sequence.
abbrev lines : List Cell
lines =
    record { addr = 1; bytes = b'H' ∷ b'i' ∷ []; marked = 0 }
    ∷ record { addr = 2; bytes = 27 ∷ b'[' ∷ b'm' ∷ b'!' ∷ []; marked = 2 }
    ∷ []

abbrev letter : Buffer
letter = record {
  store =
      update
        (update (λ a. none) 2
          (some (
            line_of (some 1) (record { addr = 2; bytes = 27 ∷ b'[' ∷ b'm' ∷ b'!' ∷ []; marked = 2 })
              none)))
        1
        (some (line_of none (record { addr = 1; bytes = b'H' ∷ b'i' ∷ []; marked = 0 }) (some 2)));
  fresh = 3;
  firstline = some 1;
  lastline = some 2;
  currline = some 1;
  currpnt = 0;
  currln = 0;
  mark_begin = none;
  mark_end = none;
  mark_on = false;
  insert_character = true;
}

letter-Seg : Seg letter.store none lines none
unfolding update
letter-Seg = (refl, (refl, tt))

abbrev opened : Screen
opened = init_screen unset 6 255

opened-InStep : InStep tall (grid 6 100) dashes opened first_pen
opened-InStep =
    init_screen-InStep tall (grid 6 100) dashes unset first_pen 255 (omega arith) (omega arith)
      (omega arith)

opened-Wide : Wide tall opened
unfolding init_screen
opened-Wide = record { col = omega arith; cols = omega arith; plain = refl }

display_buffer_shown_example :
    (s1 : Screen) × (display_buffer tall false false [] letter (some 1) opened ≡ some s1)
    × ((a k : ℕ)
        → a < 6
        → (view tall (grid 6 100) dashes (refresh tall 0 s1 first_pen).1).places a k
          ≡ (if ltb a 5 then window (shift_of 0) lines a k else text opened a k))
display_buffer_shown_example =
    display_buffer_shown tall (grid 6 100) dashes opened first_pen letter none lines [] letter-Seg
      (refl, refl, (refl, refl, refl)) opened-Wide opened-InStep

-- The row of the second line shows an asterisk, the third row a tilde.
escape_run : window 0 lines 1 0 ≡ b'*'
unfolding overlay
escape_run = refl

tilde_run : window 0 lines 2 0 ≡ b'~'
unfolding overlay
tilde_run = refl
