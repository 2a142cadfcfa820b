-- ===== src/Screen/Refresh.antt =====
-- `rel_move`, `standoutput`, `redoscr` and `refresh` of bbssrc/src/screen.c: what is sent to the terminal
-- to make it show the picture. `Pen` is where the program takes the terminal's cursor to be, and what it
-- has sent.
use firebird_bbs.Base.{
  ℕ, zero, suc, ◌+◌, ◌-◌, max, min, Bool, true, false, ◌&&◌, ◌||◌, not, List, [], ◌∷◌, ◌++◌, ltb,
  leb, ◌==◌, if◌then◌else◌,
}
use firebird_bbs.Screen.{Line, Screen, Setup, Count, pos, negsuc, row, set_line}
use firebird_bbs.Screen.Terminal.{
  Command, send_char, newline, carriage_return, cursor_left, cursor_to, clear_all, clear_eol,
  scroll_back, stand_up, stand_down,
}

pub record Pen : Type 0 where
  pub tc_col : ℕ
  pub tc_line : ℕ
  pub sent : List Command

unfoldable pub emit : Pen → Command → Pen
emit p c = record p { sent = p.sent ++ c ∷ [] }

-- `output(buf + from, n)`
unfoldable pub output : Pen → (ℕ → ℕ) → ℕ → ℕ → Pen
output p cells from zero = p
output p cells from (suc n) = output (emit p (send_char (cells from))) cells (from + 1) n

unfoldable pub rel_move : Setup → Pen → ℕ → ℕ → ℕ → ℕ → Pen
rel_move t p was_col was_ln new_col new_ln =
    let p1 = record p { tc_col = new_col; tc_line = new_ln } in
    if leb t.t_lines new_ln || leb t.t_columns new_col
    then p
    else if new_col == 0 && new_ln == was_ln + 1
    then if was_col == 0 then emit p1 newline else emit (emit p1 newline) carriage_return
    else if new_col == 0 && new_ln == was_ln
    then if was_col == 0 then p1 else emit p1 carriage_return
    else if was_col == new_col && was_ln == new_ln
    then p1
    else if new_col + 1 == was_col && new_ln == was_ln
    then emit p1 cursor_left
    else emit p1 (cursor_to new_col new_ln)

-- `rel_move(tc_col, tc_line, new_col, new_ln)`
abbrev pub go : Setup → Pen → ℕ → ℕ → Pen
go t p new_col new_ln = rel_move t p p.tc_col p.tc_line new_col new_ln

unfoldable pub standoutput : Pen → (ℕ → ℕ) → ℕ → ℕ → ℕ → ℕ → Pen
standoutput p buf ds de sso eso =
    if leb eso ds || leb de sso
    then output p buf ds (de - ds)
    else let st_start = max sso ds in
      let st_end = min eso de in
      let p1 = if ltb ds sso then output p buf ds (sso - ds) else p in
      let p2 = emit (output (emit p1 stand_up) buf st_start (st_end - st_start)) stand_down in
      if ltb eso de then output p2 buf eso (de - eso) else p2

-- The part `[from, to)` of a line.
unfoldable pub draw : Pen → Line → ℕ → ℕ → Pen
draw p l from to =
    if l.stand then standoutput p l.cells from to l.sso l.eso else output p l.cells from (to - from)

-- Where the cursor is taken to be after text that ends at column `col`. The two callers take opposite
-- views of `automargins`.
unfoldable pub wrap_pen : Setup → Bool → Pen → ℕ → Pen
wrap_pen t wraps p col =
    if ltb col t.t_columns
    then record p { tc_col = col }
    else if wraps
    then record p {
      tc_col = col - t.t_columns;
      tc_line = if leb t.t_lines (p.tc_line + 1) then t.t_lines - 1 else p.tc_line + 1;
    }
    else record p { tc_col = t.t_columns - 1 }

-- The loop of `redoscr` from line `i` on, `k` lines.
unfoldable pub redo_rows : Setup → ℕ → Screen → Pen → ℕ → Screen × Pen
redo_rows t zero s p i = (s, p)
redo_rows t (suc k) s p i =
    let j = row s i in
    let l = s.picture j in
    let p1 = draw (go t p 0 i) l 0 l.len in
    let s' =
      if l.len == 0 then s else set_line s j (record l { modified = false; oldlen = l.len }) in
    let p' = if l.len == 0 then p else wrap_pen t (not t.automargins) p1 (p1.tc_col + l.len) in
    redo_rows t k s' p' (i + 1)

unfoldable pub redoscr : Setup → Screen → Pen → Screen × Pen
redoscr t s p =
    let p0 = record (emit p clear_all) { tc_col = 0; tc_line = 0 } in
    let (s1, p1) = redo_rows t s.scr_lns s p0 0 in
    (record s1 { docls = false; scrollcnt = pos 0 }, go t p1 s1.cur_col s1.cur_ln)

-- The changed part of a line that is on the screen.
unfoldable pub draw_changes : Setup → Pen → Line → ℕ → Pen
draw_changes t p l i =
    let last = min l.emod (l.len - 1) in
    wrap_pen t t.automargins (draw (go t p l.smod i) l l.smod (last + 1)) (last + 1)

unfoldable pub clear_rest : Setup → Pen → Line → ℕ → Pen
clear_rest t p l i = if ltb l.len l.oldlen then emit (go t p l.len i) clear_eol else p

-- The loop of `refresh` over the lines.
unfoldable pub refresh_rows : Setup → ℕ → Screen → Pen → ℕ → Screen × Pen
refresh_rows t zero s p i = (s, p)
refresh_rows t (suc k) s p i =
    let j = row s i in
    let l = s.picture j in
    let changed = l.modified && ltb l.smod l.len in
    let l1 = if changed then record l { modified = false; emod = min l.emod (l.len - 1) } else l in
    let p1 = if changed then draw_changes t p l i else p in
    refresh_rows t k (set_line s j (record l1 { oldlen = l.len })) (clear_rest t p1 l i) (i + 1)

unfoldable pub emit_all : ℕ → Pen → Command → Pen
emit_all zero p c = p
emit_all (suc n) p c = emit_all n (emit p c) c

-- The lines that the terminal is to scroll by.
unfoldable pub scroll_lines : Setup → Count → Pen → Pen
scroll_lines t (pos zero) p = p
scroll_lines t (pos (suc n)) p = emit_all (suc n) (go t p 0 (t.t_lines - 1)) newline
scroll_lines t (negsuc n) p = emit_all (suc n) (go t p 0 0) scroll_back

-- `abs`
unfoldable pub size : Count → ℕ
size (pos n) = n
size (negsuc n) = n + 1

unfoldable pub is_back : Count → Bool
is_back (pos n) = false
is_back (negsuc n) = true

-- What `refresh` does on a terminal that is not dumb, once it has found that no key is waiting.
unfoldable pub repaint : Setup → Screen → Pen → Screen × Pen
repaint t s p =
    if s.docls || leb s.scr_lns (size s.scrollcnt + 3) || is_back s.scrollcnt && not t.has_scrollrev
    then redoscr t s p
    else let (s1, p1) =
        refresh_rows t s.scr_lns (record s { scrollcnt = pos 0 }) (scroll_lines t s.scrollcnt p)
          0 in
      (s1, go t p1 s1.cur_col s1.cur_ln)

-- `refresh`, where `pending` is what `num_in_buf()` gives: with keys waiting to be read it does nothing.
unfoldable pub refresh : Setup → ℕ → Screen → Pen → Screen × Pen
refresh t pending s p = if pending == 0 then repaint t s p else (s, p)
