-- ===== src/Cursor.antt =====
-- bbssrc/src/read.c: the cursor of a list of posts, kept for each index file. A line number counts
-- from 1. A difference that the source lets go below 1 is set to 1 by it at once, so the natural
-- numbers, where subtraction stops at 0, give the same.
pub mod Window
pub mod Kept
pub mod Tests
use firebird_bbs.Base.Text.{Bytes, bytes_eq}
use firebird_bbs.Base.{ℕ, suc, ◌+◌, ◌-◌, ◌/◌, Bool, List, [], ◌∷◌, ltb, leb, ◌==◌, if◌then◌else◌}

-- `struct keeploc`, without the link of the list.
pub record Keeploc : Type 0 where
  pub key : Bytes
  pub top_line : ℕ
  pub crs_line : ℕ

-- The entry and the list after `getkeep`.
abbrev at_least_one : Keeploc → Keeploc
at_least_one k = if ltb k.crs_line 1 then record k { crs_line = 1 } else k

-- The loop over the list: `make` is the entry that is put at the front when none has the key.
pub find_keep : Bytes → List Keeploc → List Keeploc
find_keep s [] = []
find_keep s (p ∷ ps) =
    let rest = find_keep s ps in if bytes_eq s p.key then at_least_one p ∷ ps else p ∷ rest

pub is_kept : Bytes → List Keeploc → Bool
is_kept s [] = Bool.false
is_kept s (p ∷ ps) = let rest = is_kept s ps in if bytes_eq s p.key then Bool.true else rest

pub getkeep : Bytes → ℕ → ℕ → List Keeploc → List Keeploc
unfolding find_keep is_kept
getkeep s def_topline def_cursline keeplist =
    if is_kept s keeplist
    then find_keep s keeplist
    else record { key = s; top_line = def_topline; crs_line = def_cursline } ∷ keeplist

-- What `fixkeep` does to the entry.
pub fix_entry : ℕ → Keeploc → Keeploc
fix_entry first k =
    if leb first k.crs_line
    then record k {
      crs_line = if first == 1 then 1 else first - 1;
      top_line = if ltb first 11 then 1 else first - 10;
    }
    else k

-- The first entry with the key.
pub change_keep : Bytes → (Keeploc → Keeploc) → List Keeploc → List Keeploc
change_keep s f [] = []
change_keep s f (p ∷ ps) =
    let rest = change_keep s f ps in if bytes_eq s p.key then f p ∷ ps else p ∷ rest

pub fixkeep : Bytes → ℕ → List Keeploc → List Keeploc
unfolding getkeep change_keep fix_entry
fixkeep s first keeplist = change_keep s (fix_entry first) (getkeep s 1 1 keeplist)

pub modify_locmem : ℕ → Keeploc → ℕ → Keeploc
modify_locmem t_lines k total =
    let top = total - t_lines / 2 in
    if ltb total k.top_line
    then record k { crs_line = total; top_line = if ltb top 1 then 1 else top }
    else if ltb total k.crs_line
    then record k { crs_line = total }
    else k

-- READ_PREV, READ_NEXT and any other mode.
pub data Mode : Type 0 where
  read_prev read_next read_other : Mode

-- The result of `move_cursor_line`: 0, 1 and -1.
pub data Reload : Type 0 where
  as_is reload at_end : Reload

abbrev clamp_low : ℕ → ℕ
clamp_low n = if ltb n 1 then 1 else n

pub move_cursor_line : ℕ → ℕ → Keeploc → Mode → Keeploc × Reload
move_cursor_line screen_len last_line k read_prev =
    let top = k.top_line in
    let crs = k.crs_line in
    (
      record k {
        top_line = if leb crs top then clamp_low (top - (screen_len - 1)) else top;
        crs_line = clamp_low (crs - 1);
      },
      (if ltb (crs - 1) 1 then at_end else if leb crs top then reload else as_is),
    )
move_cursor_line screen_len last_line k read_next =
    let top = k.top_line in
    let crs = k.crs_line in
    (
      record k {
        top_line = if leb (top + screen_len) (crs + 1) then top + (screen_len - 1) else top;
        crs_line = if ltb last_line (crs + 1) then last_line else crs + 1;
      },
      (if ltb last_line (crs + 1)
          then at_end
          else if leb (top + screen_len) (crs + 1)
          then reload
          else as_is),
    )
move_cursor_line screen_len last_line k read_other = (k, as_is)
