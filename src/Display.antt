-- ===== src/Display.antt =====
-- The editor's window on the screen: `display_buffer`, `strnput`, `cstrnput` and `msgline` of bbssrc/src/edit.c. The lines
-- are those of the model's editor, and what is written goes through the model's screen.
pub mod Rows
pub mod Lines
pub mod Window
pub mod Tests
use firebird_bbs.Base.Text.{Bytes}
use firebird_bbs.Base.{
  ℕ, zero, suc, ◌+◌, ◌-◌, ◌*◌, ◌/◌, ◌%◌, Bool, true, false, not, Option, some, none, List, [], ◌∷◌,
  length, drop, ltb, leb, ◌==◌, if◌then◌else◌, ◌>>=◌,
}
use firebird_bbs.Editor.{Ptr, TextLine, Buffer, deref}
use firebird_bbs.Screen.{Screen, Setup, move, clear_whole_line, clrtoeol, outc, outs}
use firebird_bbs.Screen.Format.{Arg, str, spaces, prints}

abbrev pub strlen_max : ℕ
strlen_max = 80

abbrev pub scrollen : ℕ
scrollen = 2

-- `ANSI_REVERSE` and `ANSI_RESET` of bbssrc/include/bbs.h.
abbrev pub ansi_reverse : Bytes
ansi_reverse = 27 ∷ b'[' ∷ b'7' ∷ b'm' ∷ 27 ∷ b'[' ∷ b'4' ∷ b'm' ∷ []

abbrev pub ansi_reset : Bytes
ansi_reset = 27 ∷ b'[' ∷ b'0' ∷ b'm' ∷ []

-- `"%s"` and `"%s~"`
abbrev pub as_text : Bytes
as_text = b'%' ∷ b's' ∷ []

abbrev pub as_tilde : Bytes
as_tilde = b'%' ∷ b's' ∷ b'~' ∷ []

-- The first column of the lines that is shown.
unfoldable pub shift_of : ℕ → ℕ
shift_of currpnt =
    if ltb strlen_max (currpnt + 2)
    then currpnt / (strlen_max - scrollen) * (strlen_max - scrollen)
    else 0

-- `strnput`, when `count` bytes have been written.
unfoldable pub strnput : Setup → ℕ → Bytes → Screen → Screen
strnput t count [] s = s
strnput t count (c ∷ cs) s =
    let rest = strnput t (count + 1) cs (outc t s (if c == 27 then b'*' else c)) in
    if ltb (count + 1) strlen_max then rest else s

unfoldable pub cstrnput : Setup → Bytes → Screen → Option Screen
cstrnput t cs s = do
  s1 ← prints t s as_text (str (some ansi_reverse) ∷ [])
  prints t (clrtoeol (outs t (strnput t 0 cs s1) (spaces (strlen_max - 1 - length cs)))) as_text
      (str (some ansi_reset) ∷ [])

-- `p->attr & M_MARK`
abbrev pub is_marked : ℕ → Bool
is_marked attr = attr % 2 == 1

-- A line of the text, and how `showansi` is left. Behind the end of a marked line is what its array
-- holds, which is `none` here.
unfoldable pub display_line : Bool → ℕ → TextLine → ℕ → Setup → Screen → Option (Setup × Screen)
display_line editansi shift l i t s =
    let t1 = record t { showansi = true } in
    if editansi
    then (do s1 ← prints t1 s as_text (str (some l.text) ∷ []); some (t1, s1))
    else if is_marked l.attr
    then (do
      s1 ← if ltb l.len shift then none else cstrnput t1 (drop shift l.text) (clear_whole_line s i)
      some (t1, s1))
    else if leb shift l.len
    then some (
      record t { showansi = false },
      strnput (record t { showansi = false }) 0 (drop shift l.text) s,
    )
    else some (t, clrtoeol s)

-- A row of the window, and the line of the next one.
unfoldable pub display_row :
    Bool → ℕ → Buffer → Ptr → ℕ → Setup → Screen → Option (Ptr × Setup × Screen)
display_row editansi shift b none i t s = do
  s1 ← prints t s as_tilde (str (some (if editansi then ansi_reset else [])) ∷ [])
  some (none, t, s1)
display_row editansi shift b (some p) i t s = do
  l ← deref b (some p)
  (t1, s1) ← display_line editansi shift l i t s
  some (l.next, t1, s1)

-- The loop, from row `i` on.
unfoldable pub display_rows : ℕ → Bool → ℕ → Buffer → Ptr → ℕ → Setup → Screen → Option Screen
display_rows zero editansi shift b p i t s = some s
display_rows (suc k) editansi shift b p i t s = do
  (q, t1, s1) ← display_row editansi shift b p i t (move s i 0)
  display_rows k editansi shift b q (i + 1) t1 (clrtoeol s1)

-- `msgline`, where nobody asks to talk: `status` is the text that it puts together from the time, the
-- mail and the cursor. It is off where `ismsgline` is not above 0.
unfoldable pub msgline : Setup → Bool → Bytes → Screen → Option Screen
msgline t on status s =
    if on
    then prints (record t { showansi = true }) (clrtoeol (move s (t.t_lines - 1) 0)) as_text
        (str (some status) ∷ [])
    else some s

unfoldable pub display_buffer : Setup → Bool → Bool → Bytes → Buffer → Ptr → Screen → Option Screen
display_buffer t editansi on status b top_of_win s = do
  s1 ← display_rows (t.t_lines - 1) editansi (shift_of b.currpnt) b top_of_win 0 t s
  msgline t on status s1
