-- ===== src/ReadMark/Tests.antt =====
-- Runs of the read marks of bbssrc/src/boards.c at concrete inputs.
use firebird_bbs.Base.Text.{codes, atoi, digits_from}
use firebird_bbs.Base.{◌≤◌, ◌≡◌, refl, true, false, not, ◌&&◌, [], ◌∷◌, length, replicate, arith}
use firebird_bbs.ReadMark.{brc_maxnum, Brc, post_time, brc_addlist, brc_unread}
use firebird_bbs.ReadMark.Marks.{brc_addlist_exact, brc_addlist_older}
use firebird_bbs.ReadMark.Order.{descending, has, passes, brc_addlist-descending, brc_unread_iff}

abbrev marks : Brc
marks = record { brc_list = 30 ∷ 20 ∷ 1 ∷ []; brc_changed = false }

-- A list without room.
abbrev full_marks : Brc
full_marks = record { brc_list = replicate 60 9; brc_changed = false }

brc_addlist_exact_example :
    brc_unread (brc_addlist false marks (codes "M.25.A")) (codes "G.27.A")
    ≡ (brc_unread marks (codes "G.27.A") && true)
unfolding post_time atoi digits_from
brc_addlist_exact_example =
    brc_addlist_exact false marks (codes "M.25.A") (codes "G.27.A") 25 27 refl refl (omega arith)
      refl

brc_addlist-descending_example :
    (descending (brc_addlist false marks (codes "M.25.A")).brc_list ≡ true)
    × (length (brc_addlist false marks (codes "M.25.A")).brc_list ≤ brc_maxnum)
brc_addlist-descending_example =
    brc_addlist-descending false marks (codes "M.25.A") refl (omega arith)

brc_unread_iff_example :
    brc_unread marks (codes "M.25.A")
    ≡ (not (has (30 ∷ 20 ∷ 1 ∷ []) 25) && passes (30 ∷ 20 ∷ 1 ∷ []) 25)
unfolding post_time atoi digits_from
brc_unread_iff_example = brc_unread_iff marks (codes "M.25.A") 25 refl refl (omega arith)

-- One mark, newer than the posts of the example.
abbrev newer_mark : Brc
newer_mark = record { brc_list = 30 ∷ []; brc_changed = false }

brc_addlist_older_example :
    (brc_unread newer_mark (codes "M.25.A") ≡ false)
    × (brc_unread (brc_addlist false newer_mark (codes "M.20.A")) (codes "M.25.A") ≡ true)
unfolding post_time atoi digits_from
brc_addlist_older_example =
    brc_addlist_older false newer_mark (codes "M.20.A") (codes "M.25.A") 20 25 refl refl
      (omega arith) (omega arith) refl (omega arith)
