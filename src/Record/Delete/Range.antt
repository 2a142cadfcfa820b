-- ===== src/Record/Delete/Range.antt =====
-- The disk after `delete_range` of bbssrc/src/record.c, and the posts it unlinks.
use firebird_bbs.Base.Text.{Bytes}
use firebird_bbs.Base.{
  ℕ, zero, suc, ◌+◌, ◌-◌, ◌≤◌, ◌<◌, ◌≡◌, refl, Bool, true, false, none, some, List, [], ◌∷◌, ◌++◌,
  map, arith, take, drop, take_nil, drop_nil, drop-drop, if◌then◌else◌,
}
use firebird_bbs.Record.{done, failed, Disk, Os}
use firebird_bbs.Record.Files.{put_ne}
use firebird_bbs.Record.Delete.{
  survives, tmpfile, post_path, cons_kept, FileHeader, Copied, copy_range, delete_range,
  range_copied,
}
use firebird_bbs.Record.Delete.Single.{AllOk, IsIndexName, IsReplaced, commit_lem}

-- The marked records of a list, and the others.
abbrev pub marked_of : List FileHeader → List FileHeader
marked_of [] = []
marked_of (r ∷ rs) = if r.marked then r ∷ marked_of rs else marked_of rs

abbrev pub unmarked_of : List FileHeader → List FileHeader
unmarked_of [] = []
unmarked_of (r ∷ rs) = if r.marked then unmarked_of rs else r ∷ unmarked_of rs

-- The part of the index that the range covers: numbers `id1` to `id2`.
abbrev pub covered : ℕ → ℕ → List FileHeader → List FileHeader
covered id1 id2 rs = take (id2 + 1 - id1) (drop (id1 - 1) rs)

abbrev copied : List FileHeader → List Bytes → Copied
copied rs names = record { kept = some rs; unlinked = names }

module _ (ok : ℕ → Bool) (name : Bytes) (id1 id2 : ℕ) (all : (n : ℕ) → ok n ≡ true) where
  abbrev paths : List FileHeader → List Bytes
  paths = map (λ r. post_path name r.filename)

  copy_behind :
      (count : ℕ) (rs : List FileHeader)
      → id2 < count
      → copy_range ok name id1 id2 count rs ≡ copied rs []
  unfolding copy_range cons_kept
  copy_behind count [] h = refl
  copy_behind count (r ∷ rs) h = ground (arith, all count, copy_behind (count + 1) rs (omega arith))

  copy_inside :
      (n count : ℕ) (rs : List FileHeader)
      → id1 ≤ count
      → count + n ≡ id2 + 1
      → copy_range ok name id1 id2 count rs
        ≡ copied (marked_of (take n rs) ++ drop n rs) (paths (unmarked_of (take n rs)))
  unfolding copy_range cons_kept
  copy_inside zero count rs h e = copy_behind count rs (omega arith)
  copy_inside (suc n) count [] h e = refl
  copy_inside (suc n) count (r ∷ rs) h e =
      ground (arith, all count, copy_inside n (count + 1) rs (omega arith) (omega arith))

  copy_before :
      (m n count : ℕ) (rs : List FileHeader)
      → count + m ≡ id1
      → id1 + n ≡ id2 + 1
      → copy_range ok name id1 id2 count rs
        ≡ copied
            (take m rs ++ (marked_of (take n (drop m rs)) ++ drop n (drop m rs)))
            (paths (unmarked_of (take n (drop m rs))))
  unfolding copy_range cons_kept
  copy_before zero n count rs h e = copy_inside n count rs (omega arith) (omega arith)
  copy_before (suc m) n count [] h e = rw (take_nil {0} n, drop_nil {0} n)
  copy_before (suc m) n count (r ∷ rs) h e =
      ground (arith, all count, copy_before m n (count + 1) rs (omega arith) e)

-- What the range leaves in the index: what stands before it, its marked records, what is behind.
abbrev pub kept_of : ℕ → ℕ → List FileHeader → List FileHeader
kept_of id1 id2 rs = take (id1 - 1) rs ++ (marked_of (covered id1 id2 rs) ++ drop id2 rs)

copy_range_lem :
    (ok : ℕ → Bool) (name : Bytes) (id1 id2 : ℕ) (rs : List FileHeader)
    → ((n : ℕ) → ok n ≡ true)
    → 0 < id1
    → id1 ≤ id2 + 1
    → copy_range ok name id1 id2 1 rs
      ≡ copied
          (kept_of id1 id2 rs)
          (map (λ r. post_path name r.filename) (unmarked_of (covered id1 id2 rs)))
copy_range_lem ok name id1 id2 rs all pos ordered =
    rw (← drop-drop (id1 - 1) (id2 + 1 - id1) id2 rs (omega arith))
      (copy_before ok name id1 id2 all (id1 - 1) (id2 + 1 - id1) 1 rs (omega arith) (omega arith))

delete_range-copies :
    (os : Os) (fs : Disk FileHeader) (name : Bytes) (id1 id2 : ℕ) (rs : List FileHeader)
    → AllOk os
    → fs name ≡ some rs
    → fs (tmpfile name) ≡ none
    → delete_range os fs name id1 id2
      ≡ range_copied os fs name (copy_range os.write_ok name id1 id2 1 rs)
unfolding delete_range
delete_range-copies os fs name id1 id2 rs ok e absent = ground (arith, ok.opens, ok.locks)

-- When every system call succeeds and no copy of an earlier call is left, deleting the numbers
-- `id1` to `id2` (`id1` at least 1, and at most one above `id2`) answers 0. The index then holds,
-- in their order, the records before the range, the marked ones of the range and the records behind
-- it; exactly the posts of the range's other records have been unlinked, in order; the backup holds
-- the old index, and no other index file has changed.
pub delete_range_lem :
    (os : Os) (fs : Disk FileHeader) (name : Bytes) (id1 id2 : ℕ) (rs : List FileHeader)
    → AllOk os
    → IsIndexName name
    → 0 < id1
    → id1 ≤ id2 + 1
    → fs name ≡ some rs
    → fs (tmpfile name) ≡ none
    → let r = delete_range os fs name id1 id2 in
      (r.status ≡ done)
      × (r.removed ≡ map (λ h. post_path name h.filename) (unmarked_of (covered id1 id2 rs)))
      × IsReplaced fs r.disk name rs (kept_of id1 id2 rs)
unfolding range_copied
delete_range_lem os fs name id1 id2 rs ok n pos ordered e absent =
    rw
      (
        delete_range-copies os fs name id1 id2 rs ok e absent,
        copy_range_lem os.write_ok name id1 id2 rs ok.writes pos ordered,
      )
      (let (s, r) = commit_lem os fs name rs (kept_of id1 id2 rs) ok n e in (s, refl, r))

-- Posts are unlinked while the copy is still being written. Where the first record is in the range
-- and not marked, and the second is to be kept, as it is marked or behind the range, but cannot be
-- written into the copy, the call answers -1, the index still lists the first record, and the file of
-- its post is gone.
pub delete_range_dangling :
    (os : Os) (fs : Disk FileHeader) (name : Bytes) (id2 : ℕ) (r s : FileHeader)
    (rs : List FileHeader)
    → IsIndexName name
    → 0 < id2
    → survives 1 id2 2 s ≡ true
    → os.lock_ok ≡ true
    → os.open_ok ≡ true
    → os.write_ok 2 ≡ false
    → r.marked ≡ false
    → fs name ≡ some (r ∷ s ∷ rs)
    → fs (tmpfile name) ≡ none
    → let after = delete_range os fs name 1 id2 in
      (after.status ≡ failed)
      × (after.disk name ≡ some (r ∷ s ∷ rs))
      × (after.removed ≡ post_path name r.filename ∷ [])
unfolding delete_range range_copied copy_range
delete_range_dangling os fs name id2 r s rs n some_id stays l o w m e absent =
    ground (arith, put_ne fs (tmpfile name) name none n.not_tmpfile)
