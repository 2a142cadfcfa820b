-- ===== src/ReadMark.antt =====
-- bbssrc/src/boards.c: which posts of the current board a user has read. `brc_list` is here the
-- list of the first `brc_num` entries of the array; a post's time is in its file name, `M.` or `G.`
-- and a number, and is taken to fit an `int`.
pub mod Marks
pub mod Order
pub mod Codec
pub mod Tests
use firebird_bbs.Base.Text.{Bytes, atoi}
use firebird_bbs.Base.{
  ℕ, Bool, true, false, ◌||◌, ◌&&◌, not, Option, none, some, List, [], ◌∷◌, ltb, ◌==◌,
  if◌then◌else◌, length,
}

-- `#define BRC_MAXNUM 60`
abbrev pub brc_maxnum : ℕ
brc_maxnum = 60

-- The current board's marks, and `brc_changed`.
pub record Brc : Type 0 where
  pub brc_list : List ℕ
  pub brc_changed : Bool

-- `ftime`, where the name is that of a post.
pub post_time : Bytes → Option ℕ
post_time (a ∷ b ∷ s) = if (a == b'M' || a == b'G') && b == b'.' then some (atoi s) else none
post_time s = none

pub all_but_last : List ℕ → List ℕ
all_but_last [] = []
all_but_last (x ∷ []) = []
all_but_last (x ∷ y ∷ xs) = x ∷ all_but_last (y ∷ xs)

-- The loop of `brc_addlist` and what follows it: the new list, and whether it has changed. `room`
-- is `brc_num < BRC_MAXNUM`; where it is false, the entries that move drop the last one.
pub place : Bool → ℕ → List ℕ → List ℕ × Bool
unfolding all_but_last
place room ftime [] = if room then (ftime ∷ [], true) else ([], false)
place room ftime (x ∷ xs) =
    let rest = place room ftime xs in
    if ftime == x
    then (x ∷ xs, false)
    else if ltb x ftime
    then (ftime ∷ (if room then x ∷ xs else all_but_last (x ∷ xs)), true)
    else (x ∷ rest.0, rest.1)

mark : Brc → ℕ → Brc
unfolding place
mark b ftime =
    let (marks, changed) = place (ltb (length b.brc_list) brc_maxnum) ftime b.brc_list in
    record { brc_list = marks; brc_changed = b.brc_changed || changed }

-- `guest`: the user's id is "guest".
pub brc_addlist : Bool → Brc → Bytes → Brc
unfolding mark post_time
brc_addlist guest b filename =
    if guest then b else elim (post_time filename) [ none ↦ b | some ftime ↦ mark b ftime ]

pub unread_loop : ℕ → List ℕ → Bool
unread_loop ftime [] = false
unread_loop ftime (x ∷ xs) =
    let rest = unread_loop ftime xs in
    if ltb x ftime then true else if ftime == x then false else rest

pub unread_time : List ℕ → ℕ → Bool
unfolding unread_loop
unread_time [] ftime = true
unread_time (x ∷ xs) ftime = unread_loop ftime (x ∷ xs)

pub brc_unread : Brc → Bytes → Bool
unfolding unread_time post_time
brc_unread b filename = elim (post_time filename) [
  | none ↦ false
  | some ftime ↦ unread_time b.brc_list ftime
]
