-- ===== src/Editor/Files.antt =====
-- How the editor of bbssrc/src/edit.c reads a file in and writes it out: `insert_from_fp` and the
-- loop of `write_file`. A file is the list of its bytes. `isprint` is that of ASCII.
use firebird_bbs.Base.Text.{Bytes}
use firebird_bbs.Base.{
  ℕ, zero, suc, ◌%◌, Bool, ◌&&◌, ◌||◌, not, Option, none, some, [], ◌∷◌, ◌++◌, ltb, leb, ◌==◌,
  if◌then◌else◌, ◌>>=◌,
}
use firebird_bbs.Editor.{Ptr, Buffer, same_ptr, deref, split, free}
use firebird_bbs.Editor.Wrap.{char_at, Sign, insert_char}

-- `isprint2` of bbssrc/include/bbs.h.
abbrev pub is_print2 : ℕ → Bool
is_print2 c = leb 128 c || leb 32 c && leb c 126

-- `do insert_char(' '); while (currpnt & 0x7);` with at most so many turns.
unfoldable pub insert_tab : ℕ → Sign → ℕ → Buffer → Option Buffer
insert_tab zero sign rounds b = none
insert_tab (suc k) sign rounds b = do
  b1 ← insert_char sign rounds b b' '
  if b1.currpnt % 8 == 0 then some b1 else insert_tab k sign rounds b1

-- A byte of the file; one of each line that is too long becomes a full stop, and the others are lost.
unfoldable pub read_char : Sign → ℕ → ℕ → Buffer → Option Buffer
read_char sign rounds ch b =
    if is_print2 ch || ch == 27
    then if ltb b.currpnt 254
      then insert_char sign rounds b ch
      else if ltb b.currpnt 255
      then insert_char sign rounds b b'.'
      else some b
    else if ch == 9
    then insert_tab rounds sign rounds b
    else if ch == 10
    then split b b.currline b.currpnt
    else some b

unfoldable pub insert_from_fp : Sign → ℕ → Bytes → Buffer → Option Buffer
insert_from_fp sign rounds [] b = some b
insert_from_fp sign rounds (ch ∷ cs) b = do
  b1 ← read_char sign rounds ch b
  insert_from_fp sign rounds cs b1

-- What is written of a line: an empty last line is not.
unfoldable pub line_out : Bytes → Ptr → Bytes
line_out t next = if not (same_ptr next none) || not (char_at t 0 == 0) then t ++ 10 ∷ [] else []

-- The loop of `write_file` that writes the lines, unless the article is given up, and frees them,
-- with at most so many turns.
unfoldable pub write_lines : ℕ → Bool → Buffer → Ptr → Option (Bytes × Buffer)
write_lines zero aborted b p = none
write_lines (suc k) aborted b none = some ([], b)
write_lines (suc k) aborted b (some p) = do
  l ← deref b (some p)
  (out, b1) ← write_lines k aborted (free b (some p)) l.next
  some (if aborted then out else line_out l.text l.next ++ out, b1)

-- `write_file` without its dialogue and the header: what it writes, and the editor left empty.
unfoldable pub write_text : ℕ → Bool → Buffer → Option (Bytes × Buffer)
write_text rounds aborted b = do
  (out, b1) ← write_lines rounds aborted (record b { firstline = none }) b.firstline
  some (out, record b1 { currline = none; lastline = none; firstline = none })
