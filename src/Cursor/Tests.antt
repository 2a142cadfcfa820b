-- ===== src/Cursor/Tests.antt =====
-- Runs of the cursor functions of bbssrc/src/read.c at concrete inputs.
use firebird_bbs.Base.Text.{codes}
use firebird_bbs.Base.{arith}
use firebird_bbs.Cursor.{Keeploc, read_next, move_cursor_line, modify_locmem}
use firebird_bbs.Cursor.Window.{OnScreen, stays, moves, resizes, Browse-OnScreen}

-- The last line of the first screen of twenty lines.
abbrev bottom : Keeploc
bottom = record { key = codes "a"; top_line = 1; crs_line = 20 }

bottom-OnScreen : OnScreen 20 50 bottom
bottom-OnScreen = record {
  from_top = omega arith;
  to_bottom = omega arith;
  first = omega arith;
  last = omega arith;
}

Browse-OnScreen_example :
    OnScreen 20 15 (modify_locmem 24 (move_cursor_line 20 50 bottom read_next).0 15)
Browse-OnScreen_example =
    Browse-OnScreen 24 (omega arith) (resizes 15 (omega arith) (moves read_next (stays 50 bottom)))
      bottom-OnScreen
