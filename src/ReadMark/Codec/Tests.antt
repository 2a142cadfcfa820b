-- ===== src/ReadMark/Codec/Tests.antt =====
-- Runs of `brc_update` and `brc_initial` of bbssrc/src/boards.c at concrete inputs.
use firebird_bbs.Base.Text.{bytes_eq, codes}
use firebird_bbs.Base.{◌≤◌, ◌≡◌, refl, true, false, some, [], ◌∷◌, length, arith}
use firebird_bbs.ReadMark.Codec.{
  brc_maxsize, brc_putrecord, put_ints, strncpy, text_of, byte_at, Entry, Marks, brc_update,
  brc_initial,
}
use firebird_bbs.ReadMark.Codec.RoundTrip.{IsEntry, file_of}
use firebird_bbs.ReadMark.Codec.Update.{boards_in, current, brc_update_lem, brc_initial_back}

abbrev sports : Entry
sports = record { name = codes "Sports"; list = 7 ∷ 1 ∷ [] }

-- A user who has read post 9 on the board Linux.
abbrev reader : Marks
reader = record {
  brc_buf = [];
  brc_name = codes "Linux";
  marks = record { brc_list = 9 ∷ 1 ∷ []; brc_changed = true };
  currboard = codes "Linux";
  boardrc = some (file_of (sports ∷ []));
}

sports-IsEntry : IsEntry sports
unfolding text_of byte_at
sports-IsEntry = record {
  marked = omega arith;
  few = omega arith;
  ints = (omega arith, (omega arith, _));
  short = omega arith;
  no_zero = refl;
  printable = refl;
}

reader-IsEntry : IsEntry (current reader)
unfolding text_of byte_at
reader-IsEntry = record {
  marked = omega arith;
  few = omega arith;
  ints = (omega arith, (omega arith, _));
  short = omega arith;
  no_zero = refl;
  printable = refl;
}

brc_update_lem_example :
    (boards_in (brc_update true reader).boardrc ≡ current reader ∷ sports ∷ [])
    × (length (brc_update true reader).brc_buf ≤ brc_maxsize)
unfolding brc_putrecord strncpy put_ints bytes_eq
brc_update_lem_example =
    brc_update_lem reader (sports ∷ []) refl refl (sports-IsEntry, _) reader-IsEntry (omega arith)

brc_initial_back_example :
    (brc_initial false (codes "Linux") (brc_initial false (codes "Sports") reader)).marks.brc_list
    ≡ 9 ∷ 1 ∷ []
unfolding brc_putrecord strncpy put_ints bytes_eq
brc_initial_back_example =
    brc_initial_back reader (sports ∷ []) false (codes "Sports") refl refl (sports-IsEntry, _)
      reader-IsEntry (omega arith) refl refl refl
