-- ===== src/Cursor/Window.antt =====
-- The cursor, the screen and the length of the list, for bbssrc/src/read.c.
use firebird_bbs.Base.{ℕ, max, ◌+◌, ◌-◌, ◌≤◌, ◌<◌, ◌≡◌, ◌≢◌, arith}
use firebird_bbs.Cursor.{
  Keeploc, fix_entry, modify_locmem, Mode, read_prev, read_next, read_other, at_end,
  move_cursor_line,
}

-- The cursor's line is a line of the list, and one of the `screen_len` lines from the top line on.
pub record OnScreen (screen_len last_line : ℕ) (k : Keeploc) : Type 0 where
  pub from_top : k.top_line ≤ k.crs_line
  pub to_bottom : k.crs_line < k.top_line + screen_len
  pub first : 1 ≤ k.top_line
  pub last : k.crs_line ≤ last_line

-- What a reader and the others who post and delete do to a cursor: it moves, or the list gets
-- another length, of at least one line, and `modify_locmem` follows. The screen shows four lines
-- less than the terminal has.
pub data Browse (t_lines : ℕ) : ℕ → Keeploc → ℕ → Keeploc → Type 0 where
  stays : (n : ℕ) (k : Keeploc) → Browse t_lines n k n k
  moves :
      {m n : ℕ} {j k : Keeploc} (mode : Mode)
      → Browse t_lines m j n k
      → Browse t_lines m j n (move_cursor_line (t_lines - 4) n k mode).0
  resizes :
      {m n : ℕ} {j k : Keeploc} (total : ℕ)
      → 1 ≤ total
      → Browse t_lines m j n k
      → Browse t_lines m j total (modify_locmem t_lines k total)

move-OnScreen :
    (screen_len n : ℕ) (k : Keeploc) (mode : Mode)
    → 2 ≤ screen_len
    → OnScreen screen_len n k
    → OnScreen screen_len n (move_cursor_line screen_len n k mode).0
unfolding move_cursor_line
move-OnScreen screen_len n k read_prev h o = record {
  from_top = ground arith;
  to_bottom = ground arith;
  first = ground arith;
  last = ground arith;
}
move-OnScreen screen_len n k read_next h o = record {
  from_top = ground arith;
  to_bottom = ground arith;
  first = ground arith;
  last = ground arith;
}
move-OnScreen screen_len n k read_other h o = o

modify-OnScreen :
    (t_lines n total : ℕ) (k : Keeploc)
    → 10 ≤ t_lines
    → 1 ≤ total
    → OnScreen (t_lines - 4) n k
    → OnScreen (t_lines - 4) total (modify_locmem t_lines k total)
unfolding modify_locmem
modify-OnScreen t_lines n total k h p o = record {
  from_top = ground arith;
  to_bottom = ground arith;
  first = ground arith;
  last = ground arith;
}

-- On a terminal of at least ten lines, a cursor that is on the screen and in the list is so after
-- any sequence of moves and of changes of the list's length.
pub Browse-OnScreen :
    (t_lines : ℕ)
    → 10 ≤ t_lines
    → {m n : ℕ} {j k : Keeploc} → Browse t_lines m j n k
    → OnScreen (t_lines - 4) m j
    → OnScreen (t_lines - 4) n k
Browse-OnScreen t_lines h (stays n k) o = o
Browse-OnScreen t_lines h (moves {m} {n} {j} {k} mode b) o =
    move-OnScreen (t_lines - 4) n k mode (omega arith) (Browse-OnScreen t_lines h b o)
Browse-OnScreen t_lines h (resizes {m} {n} {j} {k} total p b) o =
    modify-OnScreen t_lines n total k h p (Browse-OnScreen t_lines h b o)

-- Away from the ends of the list, a move forward is undone by a move back as far as the cursor's
-- line goes, and neither reports an end.
pub move_cursor_line_back :
    (screen_len n : ℕ) (k : Keeploc)
    → 1 ≤ k.crs_line
    → k.crs_line < n
    → let there = move_cursor_line screen_len n k read_next in
      let back = move_cursor_line screen_len n there.0 read_prev in
      (back.0.crs_line ≡ k.crs_line) × (there.1 ≢ at_end) × (back.1 ≢ at_end)
unfolding move_cursor_line
move_cursor_line_back screen_len n k p q = (ground arith, λ e. ground arith, λ e. ground arith)

-- When posts from number `first` on go away, a cursor that was on the screen, which has at least ten
-- lines for posts, is so still, and it is in front of `first`, or on line 1.
pub fix_entry-OnScreen :
    (screen_len n first : ℕ) (k : Keeploc)
    → 10 ≤ screen_len
    → 1 ≤ first
    → OnScreen screen_len n k
    → OnScreen screen_len n (fix_entry first k) × ((fix_entry first k).crs_line ≤ max 1 (first - 1))
unfolding fix_entry
fix_entry-OnScreen screen_len n first k h p o = (
  record {
    from_top = ground arith;
    to_bottom = ground arith;
    first = ground arith;
    last = ground arith;
  },
  ground arith,
)
