-- ===== src/Editor/Tests.antt =====
-- The theorems on bbssrc/src/edit.c at a text of two lines, the first of which is one byte short of
-- its array.
use firebird_bbs.Base.Text.{Bytes}
use firebird_bbs.Base.Maps.{update}
use firebird_bbs.Base.{
  ℕ, zero, suc, ◌≡◌, refl, true, false, Option, none, some, List, [], ◌∷◌, ◌++◌, arith,
}
use firebird_bbs.Editor.{vedit_init, TextLine, Buffer, same_ptr, delete_line, split}
use firebird_bbs.Editor.Wrap.{join, insert_char}
use firebird_bbs.Editor.Heap.{has, Cell, line_of}
use firebird_bbs.Editor.Linking.{Shows, SameCursor, last_after}
use firebird_bbs.Editor.Splitting.{cut_lines, split-Shows}
use firebird_bbs.Editor.Deleting.{Unmarked, deleted_lines, delete_line_lem}
use firebird_bbs.Editor.Joining.{joined, join_lem}
use firebird_bbs.Editor.Flowing.{texts, short}
use firebird_bbs.Editor.Keeping.{ink, inks, insert_char_keeps}
use firebird_bbs.Editor.Keys.{Vedit, key_del, vedit_key}
use firebird_bbs.Editor.Spots.{Editing}
use firebird_bbs.Editor.Keystrokes.{vedit_key_keeps}
use firebird_bbs.Editor.Files.{insert_from_fp, write_text}
use firebird_bbs.Editor.Jump.{goline, goline_lands}
use firebird_bbs.Editor.Saving.{write_text-insert_from_fp}
use firebird_bbs.Editor.Typing.{insert_char_lem}
use firebird_bbs.Editor.Wrapping.{Typed, typed_line}

abbrev many : ℕ → ℕ → Bytes
many zero c = []
many (suc n) c = c ∷ many n c

abbrev one : Cell
one = record { addr = 1; bytes = many 5 b'a' ++ b' ' ∷ many 248 b'b'; marked = 0 }

abbrev two : Cell
two = record { addr = 2; bytes = many 2 b'c' ++ b' ' ∷ many 2 b'd'; marked = 1 }

abbrev text : Buffer
text = record {
  store =
      update (update (λ a. none) 1 (some (line_of none one (some 2)))) 2
        (some (line_of (some 1) two none));
  fresh = 3;
  firstline = some 1;
  lastline = some 2;
  currline = some 1;
  currpnt = 254;
  currln = 0;
  mark_begin = some 2;
  mark_end = some 2;
  mark_on = true;
  insert_character = true;
}

text-Shows : Shows text (one ∷ two ∷ [])
unfolding update
text-Shows = record {
  chain = (refl, (refl, tt));
  first = refl;
  last = refl;
  apart = refl;
  older = refl;
}

delete_line_lem_example :
    (b' : Buffer) × (delete_line text (some 2) ≡ some b')
    × Shows b' (deleted_lines (one ∷ []) two [])
    × SameCursor text b'
    × Unmarked b' two
delete_line_lem_example = delete_line_lem text (one ∷ []) [] two text-Shows

-- The cursor is at the end of the first line; the line is cut in the middle.
split-Shows_example :
    (g : (ℕ → Option TextLine)) × (let b' = record text {
      store = g;
      fresh = 4;
      lastline = last_after (some 2) 3 (two ∷ []);
      currline = some 3;
      currpnt = 54;
      currln = 1;
    } in
      (split text (some 1) 200 ≡ some b') × Shows b' (cut_lines [] one (two ∷ []) 200 3))
unfolding same_ptr
split-Shows_example = split-Shows text [] (two ∷ []) one 200 text-Shows (omega arith)

join_lem_example :
    (b' : Buffer) × (join text (some 1) ≡ some ((joined one (two ∷ []) 3).0, b'))
    × Shows b' (joined one (two ∷ []) 3).1
    × SameCursor text b'
unfolding same_ptr
join_lem_example = join_lem text [] (two ∷ []) one text-Shows refl (omega arith)

insert_char_lem_example :
    Typed text []
      (two ∷ [])
      (typed_line true one.bytes 254 b'e')
      255
      (insert_char (record { editing = false; mark = [] }) 2 text b'e')
insert_char_lem_example =
    insert_char_lem (record { editing = false; mark = [] }) 2 text [] (two ∷ []) one b'e' refl
      text-Shows refl (omega arith) refl (omega arith)

insert_char_keeps_example :
    (after : Buffer) × (cells : List Cell) × (insert_char
        (record { editing = false; mark = [] })
        2
        text
        b'e'
      ≡ some after)
    × Shows after cells
    × (short (texts cells) ≡ true)
    × (inks (texts cells) ≡ ink (typed_line true one.bytes 254 b'e') ++ inks (two.bytes ∷ []))
insert_char_keeps_example =
    insert_char_keeps (record { editing = false; mark = [] }) 2 text [] (two ∷ []) one b'e' refl
      text-Shows refl (omega arith) refl (omega arith)

text-Editing : Editing text
text-Editing = record {
  cells = one ∷ two ∷ [];
  shows = text-Shows;
  spot = record {
    before = [];
    at = one;
    behind = two ∷ [];
    whole = refl;
    addr = refl;
    index = refl;
  };
  pnt_in = omega arith;
  small = refl;
}

abbrev session : Vedit
session = record { buffer = text; lastindent = none; editansi = false }

vedit_key_keeps_example :
    (v' : Vedit) × (vedit_key (record { editing = false; mark = [] }) 2 session key_del ≡ some v')
    × Editing v'.buffer
    × (v'.editansi ≡ false)
unfolding text-Editing
vedit_key_keeps_example =
    vedit_key_keeps (record { editing = false; mark = [] }) 2 session key_del text-Editing refl refl
      (omega arith) (λ k. omega arith)

write_text-insert_from_fp_example :
    (b1 : Buffer) × (b2 : Buffer) × (cells : List Cell) × (insert_from_fp
        (record { editing = false; mark = [] })
        1
        (b'a' ∷ b' ' ∷ b'b' ∷ 10 ∷ 10 ∷ b'c' ∷ 10 ∷ [])
        (vedit_init text)
      ≡ some b1)
    × Shows b1 cells
    × (texts cells ≡ (b'a' ∷ b' ' ∷ b'b' ∷ []) ∷ [] ∷ (b'c' ∷ []) ∷ [] ∷ [])
    × (write_text 5 false b1 ≡ some (b'a' ∷ b' ' ∷ b'b' ∷ 10 ∷ 10 ∷ b'c' ∷ 10 ∷ [], b2))
    × ((a : ℕ) → has a cells ≡ true → b2.store a ≡ none)
write_text-insert_from_fp_example =
    write_text-insert_from_fp (record { editing = false; mark = [] }) 1 5 text
      ((b'a' ∷ b' ' ∷ b'b' ∷ []) ∷ [] ∷ (b'c' ∷ []) ∷ []) refl (omega arith) (omega arith)
      ((refl, (refl, (refl, tt))), (tt, ((refl, tt), tt))) refl

goline_lands_example :
    goline (record { editing = false; mark = [] }) text false 2
    ≡ some (record text { currline = some 2; currln = 1 })
goline_lands_example =
    goline_lands (record { editing = false; mark = [] }) text (one ∷ []) [] two refl text-Shows
