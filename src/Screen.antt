-- ===== src/Screen.antt =====
-- The screen of bbssrc/src/screen.c, a picture in memory of what the terminal is to show. The state is
-- the statics of the file, with `unsigned char` written out as `% 256`. What the terminal may or may
-- not do is in `Setup`, which bbssrc/src/term.c fills from the terminal data base.
pub mod Terminal
pub mod Refresh
pub mod Pens
pub mod Going
pub mod Drawing
pub mod Accuracy
pub mod Writing
pub mod Rows
pub mod Frames
pub mod Loops
pub mod Scrolling
pub mod Shows
pub mod Turning
pub mod Clearing
pub mod Rolling
pub mod Uses
pub mod Text
pub mod Typing
pub mod Grids
pub mod Format
pub mod Printing
pub mod Columns
pub mod Places
pub mod Tests
use firebird_bbs.Base.Text.{Bytes}
use firebird_bbs.Base.Maps.{update}
use firebird_bbs.Base.{
  ℕ, zero, suc, ◌+◌, ◌-◌, ◌%◌, max, min, Bool, true, false, ◌&&◌, ◌||◌, not, List, [], ◌∷◌, ltb,
  leb, ◌==◌, if◌then◌else◌,
}

abbrev pub linelen : ℕ
linelen = 256

-- `struct screenline` of bbssrc/include/screen.h. `mode` is its two bits.
pub record Line : Type 0 where
  pub oldlen : ℕ
  pub len : ℕ
  pub modified : Bool
  pub stand : Bool
  pub smod : ℕ
  pub emod : ℕ
  pub sso : ℕ
  pub eso : ℕ
  pub cells : ℕ → ℕ

-- `scrollcnt`, of either sign.
pub data Count : Type 0 where
  pos : ℕ → Count
  negsuc : ℕ → Count

pub record Screen : Type 0 where
  pub picture : ℕ → Line
  pub scr_lns : ℕ
  pub scr_cols : ℕ
  pub cur_ln : ℕ
  pub cur_col : ℕ
  pub roll : ℕ
  pub scrollcnt : Count
  pub docls : Bool
  pub standing : Bool
  pub inansi : Bool

-- The terminal, and `iscolor` and `showansi`.
pub record Setup : Type 0 where
  pub t_lines : ℕ
  pub t_columns : ℕ
  pub automargins : Bool
  pub has_scrollrev : Bool
  pub has_standout : Bool
  pub iscolor : Bool
  pub showansi : Bool

unfoldable pub inc : Count → Count
inc (pos n) = pos (n + 1)
inc (negsuc zero) = pos 0
inc (negsuc (suc n)) = negsuc n

unfoldable pub dec : Count → Count
dec (pos zero) = negsuc 0
dec (pos (suc n)) = pos n
dec (negsuc n) = negsuc (n + 1)

-- The index in the picture of line `i` of the screen: the loop takes `scr_lns` off while it can.
abbrev pub row : Screen → ℕ → ℕ
row s i = (i + s.roll) % s.scr_lns

unfoldable pub set_line : Screen → ℕ → Line → Screen
set_line s j l = record s { picture = update s.picture j l }

unfoldable pub no_line : Line → Line
no_line l = record l { modified = false; stand = false; len = 0; oldlen = 0 }

unfoldable pub init_screen : Screen → ℕ → ℕ → Screen
init_screen s slns scols = record s {
  scr_lns = slns % 256;
  scr_cols = min scols linelen % 256;
  picture = λ j. record {
    oldlen = 0;
    len = 0;
    modified = false;
    stand = false;
    smod = 0;
    emod = 0;
    sso = 0;
    eso = 0;
    cells = λ c. 0;
  };
  docls = true;
  roll = 0;
}

unfoldable pub move : Screen → ℕ → ℕ → Screen
move s y x = record s { cur_col = x % 256; cur_ln = y % 256 }

unfoldable pub clear : Screen → Screen
clear s =
    move
      (record s {
        roll = 0;
        docls = true;
        picture = λ j. if ltb j s.scr_lns then no_line (s.picture j) else s.picture j;
      })
      0 0

unfoldable pub clear_whole_line : Screen → ℕ → Screen
clear_whole_line s i =
    set_line s i (record (s.picture i) { modified = false; stand = false; len = 0; oldlen = 79 })

-- `for (i = from; i < to; i++) data[i] = ' ';`
unfoldable pub fill : (ℕ → ℕ) → ℕ → ℕ → ℕ → ℕ
fill cells from to c = if leb from c && ltb c to then b' ' else cells c

unfoldable pub clrtoeol_line : Line → ℕ → Line
clrtoeol_line l col =
    let l1 = if leb col l.sso then record l { stand = false } else l in
    let l2 = if ltb l.oldlen col then record l1 { cells = fill l.cells l.len (col + 1) } else l1 in
    record l2 { len = col }

unfoldable pub clrtoeol : Screen → Screen
clrtoeol s =
    let j = row s s.cur_ln in
    set_line (record s { standing = false }) j (clrtoeol_line (s.picture j) s.cur_col)

unfoldable pub clrtobot_line : Line → Line
clrtobot_line l = record l {
  modified = false;
  stand = false;
  len = 0;
  oldlen = if ltb 0 l.oldlen then 255 else l.oldlen;
}

-- The lines from line `i` of the screen on, `k` of them.
unfoldable pub clrtobot_rows : ℕ → Screen → ℕ → Screen
clrtobot_rows zero s i = s
clrtobot_rows (suc k) s i =
    clrtobot_rows k (set_line s (row s i) (clrtobot_line (s.picture (row s i)))) (i + 1)

unfoldable pub clrtobot : Screen → Screen
clrtobot s = clrtobot_rows (s.scr_lns - s.cur_ln) s s.cur_ln

unfoldable pub clrstandout : Screen → Screen
clrstandout s = record s {
  picture = λ j. if ltb j s.scr_lns then record (s.picture j) { stand = false } else s.picture j;
}

-- `isprint2` of bbssrc/include/bbs.h.
abbrev pub is_print : ℕ → Bool
is_print c = leb 128 c || leb 32 c && leb c 126

-- The end of a line: what is behind the cursor goes.
unfoldable pub end_line : Line → ℕ → Bool → Line
end_line l col standing =
    let l1 = if standing then record l { eso = max l.eso col } else l in
    let l2 = if ltb l.len col then record l1 { cells = fill l.cells l.len (col + 1) } else l1 in
    record l2 { len = col }

-- A character at a column: the line grows up to it, and the changed part takes it in.
unfoldable pub grow_line : Line → ℕ → Line
grow_line l col =
    if leb l.len col
    then record l { cells = update (fill l.cells l.len col) col 0; len = (col + 1) % 256 }
    else l

unfoldable pub mark_line : Line → ℕ → Line
mark_line l col = record l {
  smod = if l.modified then min col l.smod else col;
  emod = if l.modified then max col l.emod else col;
  modified = true;
}

unfoldable pub write_cell : Line → ℕ → ℕ → Line
write_cell l col c =
    let l1 = grow_line l col in
    let l2 = if l1.cells col == c then l1 else mark_line l1 col in
    record l2 { cells = update l2.cells col c }

unfoldable pub next_line : Screen → ℕ
next_line s = if ltb s.cur_ln s.scr_lns then s.cur_ln + 1 else s.cur_ln

-- The end of `outc`: the cursor goes on, to the next line where the line is full.
unfoldable pub advance : Screen → ℕ → Line → ℕ → Screen
advance s j l col =
    let next = (col + 1) % 256 in
    if leb s.scr_cols next
    then record (set_line s j
        (if s.standing && l.stand then record l { eso = max l.eso next } else l)) {
          standing = s.standing && not l.stand;
          cur_col = 0;
          cur_ln = next_line s;
        }
    else record (set_line s j l) { cur_col = next }

-- `outc` on a terminal that is not dumb, outside a colour sequence that is left out.
unfoldable pub outc_line : Setup → Screen → ℕ → Screen
outc_line t s c =
    let j = row s s.cur_ln in
    let l = s.picture j in
    if not (is_print c) && (c == 10 || c == 13)
    then record (set_line s j (end_line l s.cur_col s.standing)) {
      standing = false;
      cur_col = 0;
      cur_ln = next_line s;
    }
    else advance s j
        (write_cell l s.cur_col
          (if not (is_print c) && (not (c == 27) || not t.showansi) then b'*' else c))
        s.cur_col

unfoldable pub outc : Setup → Screen → ℕ → Screen
outc t s c =
    if s.inansi
    then if c == b'm' then record s { inansi = false } else s
    else if c == 27 && not t.iscolor
    then record s { inansi = true }
    else outc_line t s c

unfoldable pub outs : Setup → Screen → Bytes → Screen
outs t s [] = s
outs t s (c ∷ str) = outs t (outc t s c) str

unfoldable pub scroll : Screen → Screen
scroll s = clrtoeol (
    move
      (record s {
        scrollcnt = inc s.scrollcnt;
        roll = if leb s.scr_lns (s.roll + 1) then s.roll + 1 - s.scr_lns else s.roll + 1;
      })
      (s.scr_lns - 1) 0)

unfoldable pub rscroll : Screen → Screen
rscroll s = clrtoeol (
    move
      (record s {
        scrollcnt = dec s.scrollcnt;
        roll = if ltb 0 s.roll then s.roll - 1 else s.scr_lns - 1;
      })
      0 0)

unfoldable pub standout : Setup → Screen → Screen
standout t s =
    let j = row s s.cur_ln in
    if not t.has_standout || s.standing
    then s
    else record (set_line s j
        (record (s.picture j) { sso = s.cur_col; eso = s.cur_col; stand = true })) {
          standing = true;
        }

unfoldable pub standend : Setup → Screen → Screen
standend t s =
    let j = row s s.cur_ln in
    let l = s.picture j in
    if not t.has_standout || not s.standing
    then s
    else record (set_line s j (record l { eso = max l.eso s.cur_col })) { standing = false }
