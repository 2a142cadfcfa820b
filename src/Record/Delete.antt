-- ===== src/Record/Delete.antt =====
-- `tmpfilename`, `delete_record` and `delete_range` of bbssrc/src/record.c: the surviving records
-- are copied to `.tmpfile`, the index is renamed to `.deleted`, and the copy takes its place.
-- The source has these names in arrays of 80 bytes; here they are not bounded.
pub mod Names
pub mod Single
pub mod Range
use firebird_bbs.Base.Text.{Bytes, codes}
use firebird_bbs.Base.{
  ℕ, zero, suc, ◌+◌, Bool, true, false, ◌||◌, Option, none, some, List, [], ◌∷◌, ◌++◌, ltb, ◌==◌,
  if◌then◌else◌, take,
}
use firebird_bbs.Record.{Status, done, failed, Disk, Os, bufsize, put, rename}

-- The index of the last occurrence of a byte.
unfoldable pub strrchr : Bytes → ℕ → Option ℕ
strrchr [] c = none
strrchr (x ∷ s) c = elim (strrchr s c) [
  | some i ↦ some (suc i)
  | none ↦ if x == c then some 0 else none
]

-- The path up to its last slash, the slash included.
unfoldable pub dir_part : Bytes → Bytes
unfolding strrchr
dir_part name = elim (strrchr name b'/') [ none ↦ [] | some i ↦ take (suc i) name ]

unfoldable pub tmpfile : Bytes → Bytes
tmpfile name = dir_part name ++ codes ".tmpfile"

unfoldable pub deleted : Bytes → Bytes
deleted name = dir_part name ++ codes ".deleted"

-- `sprintf(fullpath, "%s/%s", buf, post)`, where `buf` is the index's path cut at its last slash.
pub post_path : Bytes → Bytes → Bytes
unfolding strrchr
post_path name post = elim (strrchr name b'/') [
  | none ↦ name ++ codes "/" ++ post
  | some i ↦ take i name ++ codes "/" ++ post
]

module _ {ℓ} {A : Type ℓ} where
  unfoldable pub cons_kept : A → Option (List A) → Option (List A)
  cons_kept r none = none
  cons_kept r (some rs) = some (r ∷ rs)

  -- `while (read(fdr, ...)) if (id != count++ && safewrite(fdw, ...) == -1)`: `none` is the error.
  unfoldable pub copy_except : (ℕ → Bool) → ℕ → ℕ → List A → Option (List A)
  unfolding cons_kept
  copy_except ok id count [] = some []
  copy_except ok id count (r ∷ rs) =
      let rest = copy_except ok id (count + 1) rs in
      if id == count then rest else if ok count then cons_kept r rest else none

  -- The two renames at the end, with the copy in `.tmpfile`.
  unfoldable pub commit : Os → Disk A → Bytes → List A → Disk A × Status
  commit os fs name kept =
      let copied = put fs (tmpfile name) (some kept) in
      let moved = rename copied name (deleted name) in
      if os.rename_first_ok
      then if os.rename_second_ok then (rename moved (tmpfile name) name, done) else (moved, failed)
      else (copied, failed)

  -- Once both files are open, with the records `rs` of the index.
  unfoldable pub delete_copied : Os → Disk A → Bytes → ℕ → List A → Disk A × Status
  unfolding copy_except
  delete_copied os fs name id rs = elim (copy_except os.write_ok id 1 rs) [
    | none ↦ (put fs (tmpfile name) none, failed)
    | some kept ↦ commit os fs name kept
  ]

  -- `O_CREAT | O_EXCL`: an old `.tmpfile` stops the operation.
  unfoldable pub delete_record : Os → Disk A → Bytes → ℕ → ℕ → Disk A × Status
  unfolding delete_copied commit
  delete_record os fs name size id =
      if ltb bufsize size
      then (fs, failed)
      else if os.lock_ok
      then elim (fs name) [
        | none ↦ (fs, failed)
        | some rs ↦ elim (fs (tmpfile name)) [
          | some old ↦ (fs, failed)
          | none ↦ if os.open_ok then delete_copied os fs name id rs else (fs, failed)
        ]
      ]
      else (fs, failed)

-- A post's index entry, as far as this module reads it.
pub record FileHeader : Type 0 where
  pub filename : Bytes
  pub owner : Bytes
  pub title : Bytes
  pub marked : Bool

-- What the copy loop of `delete_range` leaves: the copy, or none on a write error, and the files
-- that it has unlinked, in order.
pub record Copied : Type 0 where
  pub kept : Option (List FileHeader)
  pub unlinked : List Bytes

-- `count < id1 || count > id2 || fhdr.accessed[0] & FILE_MARKED`
abbrev pub survives : ℕ → ℕ → ℕ → FileHeader → Bool
survives id1 id2 count r = ltb count id1 || ltb id2 count || r.marked

pub copy_range : (ℕ → Bool) → Bytes → ℕ → ℕ → ℕ → List FileHeader → Copied
unfolding cons_kept
copy_range ok name id1 id2 count [] = record { kept = some []; unlinked = [] }
copy_range ok name id1 id2 count (r ∷ rs) =
    let rest = copy_range ok name id1 id2 (count + 1) rs in
    if survives id1 id2 count r
    then if ok count
      then record rest { kept = cons_kept r rest.kept }
      else record { kept = none; unlinked = [] }
    else record rest { unlinked = post_path name r.filename ∷ rest.unlinked }

-- The disk, the unlinked posts and the return code.
pub record RangeResult : Type 1 where
  pub disk : Disk FileHeader
  pub removed : List Bytes
  pub status : Status

refused : Disk FileHeader → RangeResult
refused fs = record { disk = fs; removed = []; status = failed }

range_copied : Os → Disk FileHeader → Bytes → Copied → RangeResult
range_copied os fs name c = elim c.kept [
  | none ↦ record { disk = put fs (tmpfile name) none; removed = c.unlinked; status = failed }
  | some kept ↦
      let end = commit os fs name kept in
      record { disk = end.0; removed = c.unlinked; status = end.1 }
]

pub delete_range : Os → Disk FileHeader → Bytes → ℕ → ℕ → RangeResult
unfolding refused range_copied copy_range commit
delete_range os fs name id1 id2 =
    if os.lock_ok
    then elim (fs name) [
      | none ↦ refused fs
      | some rs ↦ elim (fs (tmpfile name)) [
        | some old ↦ refused fs
        | none ↦
            if os.open_ok
            then range_copied os fs name (copy_range os.write_ok name id1 id2 1 rs)
            else refused fs
      ]
    ]
    else refused fs
