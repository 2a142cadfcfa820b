-- ===== src/Screen/Tests.antt =====
-- Runs of bbssrc/src/screen.c at concrete inputs, on a terminal that is a grid of places.
use firebird_bbs.Base.{
  ◌≤◌, ℕ, ◌+◌, ◌<◌, ◌≡◌, refl, true, false, [], ◌∷◌, length, ◌==◌, if◌then◌else◌, arith, some, none,
}
use firebird_bbs.Base.Maps.{update}
use firebird_bbs.Base.Text.{Bytes, atoi}
use firebird_bbs.Screen.{
  inc, Line, Screen, Setup, pos, set_line, init_screen, move, fill, clrtoeol_line, clrtoeol,
  grow_line, mark_line, write_cell, advance, outc_line, outc, outs, scroll,
}
use firebird_bbs.Screen.Refresh.{
  Pen, emit, output, rel_move, standoutput, draw, wrap_pen, redo_rows, redoscr, draw_changes,
  clear_rest, refresh_rows, scroll_lines, size, is_back, repaint, refresh,
}
use firebird_bbs.Screen.Pens.{view}
use firebird_bbs.Screen.Shows.{InStep, Refreshed, refresh-Refreshed}
use firebird_bbs.Screen.Writing.{Fits}
use firebird_bbs.Screen.Clearing.{init_screen-InStep}
use firebird_bbs.Screen.Text.{text}
use firebird_bbs.Screen.Grids.{scroll_text}
use firebird_bbs.Screen.Typing.{overlay, printable, Room, outs_shown}
use firebird_bbs.Screen.Uses.{
  Used, begins, calls, writes, refreshes, scrolls, Used-InStep, Used-Refreshed,
}
use firebird_bbs.Screen.Format.{
  str, num, dec_table, spaces, take_off, number_digits, digit_count, number_len, print_number,
  first_bytes, colour_bytes, outns, or_null, print_string, read_signs, read_val, read_field,
  convert_string, convert, convert_field, format_item, format,
}
use firebird_bbs.Screen.Printing.{atoi-number_digits}
use firebird_bbs.Screen.Columns.{column, print_string-column}
use firebird_bbs.Screen.Places.{Grid, grid}

-- A terminal of six lines that shows dashes, and a screen whose memory has not been written.
abbrev vt : Setup
vt = record {
  t_lines = 6;
  t_columns = 20;
  automargins = true;
  has_scrollrev = true;
  has_standout = true;
  iscolor = false;
  showansi = false;
}

abbrev pub dashes : Grid
dashes = record { places = λ i k. b'-'; y = 3; x = 4 }

abbrev blank : Line
blank = record {
  oldlen = 0;
  len = 0;
  modified = false;
  stand = false;
  smod = 0;
  emod = 0;
  sso = 0;
  eso = 0;
  cells = λ c. 0;
}

abbrev pub unset : Screen
unset = record {
  picture = λ j. blank;
  scr_lns = 0;
  scr_cols = 0;
  cur_ln = 0;
  cur_col = 0;
  roll = 0;
  scrollcnt = pos 0;
  docls = false;
  standing = false;
  inansi = false;
}

abbrev pub first_pen : Pen
first_pen = record { tc_col = 0; tc_line = 0; sent = [] }

abbrev fresh : Screen
fresh = init_screen unset 6 20

fresh-InStep : InStep vt (grid 6 20) dashes fresh first_pen
fresh-InStep =
    init_screen-InStep vt (grid 6 20) dashes unset first_pen 20 (omega arith) (omega arith)
      (omega arith)

abbrev ready : Screen × Pen
ready = refresh vt 0 fresh first_pen

abbrev hello : Bytes
hello = b'H' ∷ b'i' ∷ b'!' ∷ []

cleared_all : (view vt (grid 6 20) dashes ready.1).places 3 3 ≡ b' '
unfolding init_screen refresh repaint redoscr redo_rows draw output emit rel_move wrap_pen
    standoutput size is_back
cleared_all = refl

hello-Room : Room vt ready.0 hello
unfolding init_screen refresh repaint redoscr redo_rows size is_back set_line
hello-Room = record {
  ln = omega arith;
  col = omega arith;
  cols = omega arith;
  small = omega arith;
  gap = refl;
  plain = refl;
}

outs_shown_example :
    let v = view vt (grid 6 20) dashes (refresh vt 0 (outs vt ready.0 hello) ready.1).1 in
    ((a k : ℕ)
      → a < ready.0.scr_lns
      → v.places a k ≡ (
          if a == ready.0.cur_ln
          then overlay hello ready.0.cur_col (text ready.0 a k) k
          else text ready.0 a k))
    × (v.x ≡ ready.0.cur_col + length hello)
    × (v.y ≡ ready.0.cur_ln)
outs_shown_example =
    outs_shown vt (grid 6 20) dashes hello ready.0 ready.1 (unfold printable in refl) hello-Room
      ((refresh-Refreshed vt (grid 6 20) dashes fresh first_pen fresh-InStep).in_step)

-- The screen is cleared once, a letter is written, and the picture rolls up by a line.
abbrev with_letter : Screen
with_letter = outc vt ready.0 b'A'

abbrev rolled : Screen
rolled = scroll with_letter

fits : Fits vt ready.0
unfolding init_screen refresh repaint redoscr redo_rows size is_back set_line
fits = record { ln = omega arith; col = omega arith; small = omega arith; gap = refl }

forwards : with_letter.docls ≡ false → size (inc with_letter.scrollcnt) ≤ with_letter.scr_lns
unfolding inc init_screen refresh repaint redoscr redo_rows size is_back set_line outc outc_line
    advance
forwards h = omega arith

rolled-Used : Used vt rolled ready.1
rolled-Used =
    calls
      (calls
        (calls (begins unset first_pen 20 (omega arith) (omega arith) (omega arith)) (refreshes 0))
        (writes b'A' (omega arith) fits))
      (scrolls forwards)

Used-Refreshed_example : Refreshed vt (grid 6 20) dashes rolled (refresh vt 0 rolled ready.1)
Used-Refreshed_example = Used-Refreshed vt (grid 6 20) dashes rolled ready.1 rolled-Used

Used-InStep_example : InStep vt (grid 6 20) dashes rolled ready.1
Used-InStep_example = Used-InStep vt (grid 6 20) dashes rolled ready.1 rolled-Used

refresh-Refreshed_example : Refreshed vt (grid 6 20) dashes fresh (refresh vt 0 fresh first_pen)
refresh-Refreshed_example = refresh-Refreshed vt (grid 6 20) dashes fresh first_pen fresh-InStep

scroll_run : text (scroll fresh) 2 7 ≡ (if 2 == 5 then b' ' else text fresh 3 7)
unfolding init_screen
scroll_run = scroll_text fresh 2 7 (omega arith) (omega arith) (omega arith)

-- A letter behind the end of a line that has been cut, with no `refresh` in between: the picture has
-- blanks before it, and the terminal still shows what was there.
abbrev words : Screen × Pen
words = refresh vt 0 (outs vt ready.0 (b'H' ∷ b'e' ∷ b'l' ∷ b'l' ∷ b'o' ∷ [])) ready.1

abbrev gap : Screen
gap = outc vt (move (clrtoeol (move words.0 0 1)) 0 4) b'x'

gap_picture : text gap 0 2 ≡ b' '
unfolding init_screen refresh repaint redoscr redo_rows size is_back set_line outs outc outc_line
    advance write_cell grow_line mark_line fill clrtoeol clrtoeol_line move refresh_rows
    scroll_lines update
gap_picture = refl

gap_terminal : (view vt (grid 6 20) dashes (refresh vt 0 gap words.1).1).places 0 2 ≡ b'l'
unfolding init_screen refresh repaint redoscr redo_rows size is_back set_line outs outc outc_line
    advance write_cell grow_line mark_line fill clrtoeol clrtoeol_line move refresh_rows
    scroll_lines clear_rest draw_changes draw output emit rel_move wrap_pen standoutput update
gap_terminal = refl

abbrev name : Bytes
name = b'b' ∷ b'o' ∷ b'b' ∷ []

-- `prints("%-5s|%4d", "bob", -42)`
format_run :
    format 9
      (b'%' ∷ b'-' ∷ b'5' ∷ b's' ∷ b'|' ∷ b'%' ∷ b'4' ∷ b'd' ∷ [])
      (str (some name) ∷ num true 42 ∷ [])
    ≡ some (b'b' ∷ b'o' ∷ b'b' ∷ b' ' ∷ b' ' ∷ b'|' ∷ b' ' ∷ b'-' ∷ b'4' ∷ b'2' ∷ [])
unfolding format format_item convert_field convert convert_string print_string print_number
    number_digits number_len digit_count take_off spaces read_field read_signs read_val or_null
format_run = refl

-- `prints("%.3s", "\033[m")` reads behind the end of the string.
outns_run : outns (27 ∷ b'[' ∷ b'm' ∷ []) 3 true ≡ none
unfolding outns first_bytes colour_bytes
outns_run = refl

atoi-number_digits_example : atoi (number_digits dec_table true 2147483647) ≡ 2147483647
atoi-number_digits_example = atoi-number_digits 2147483647 (omega arith)

print_string-column_example :
    (print_string true true 5 name ≡ some (column true 5 name)) × (length (column true 5 name) ≡ 5)
print_string-column_example = print_string-column true 5 name (omega arith)
