-- ===== src/Record/Delete/Single.antt =====
-- The disk after `delete_record` of bbssrc/src/record.c.
use firebird_bbs.Base.Text.{Bytes, bytes_eq_refl}
use firebird_bbs.Base.{
  ℕ, zero, suc, ◌+◌, ◌≤◌, ◌<◌, ◌≡◌, ◌≢◌, refl, sym, ◌⊎◌, inl, inr, Bool, true, false, none, some,
  List, [], ◌∷◌, arith, erase_idx, Option-cases,
}
use firebird_bbs.Record.{done, failed, Disk, Os, bufsize, put, rename}
use firebird_bbs.Record.Files.{bytes_ne, put_ne}
use firebird_bbs.Record.Delete.{tmpfile, deleted, copy_except, commit, delete_copied, delete_record}
use firebird_bbs.Record.Delete.Names.{tmpfile-ne-deleted}

-- Every system call succeeds.
pub record AllOk (os : Os) : Type 0 where
  pub opens : os.open_ok ≡ true
  pub locks : os.lock_ok ≡ true
  pub writes : (n : ℕ) → os.write_ok n ≡ true
  pub renames_first : os.rename_first_ok ≡ true
  pub renames_second : os.rename_second_ok ≡ true

-- `name` is an index file and not one of the names that `tmpfilename` makes from it.
pub record IsIndexName (name : Bytes) : Type 0 where
  pub not_tmpfile : name ≢ tmpfile name
  pub not_deleted : name ≢ deleted name

module _ {ℓ} {A : Type ℓ} where
  -- The records without number `id`, counted from 1.
  abbrev pub without : ℕ → List A → List A
  without zero rs = rs
  without (suc i) rs = erase_idx rs i

  copy_after :
      (ok : ℕ → Bool) (id count : ℕ) (rs : List A)
      → ((n : ℕ) → ok n ≡ true)
      → id < count
      → copy_except ok id count rs ≡ some rs
  unfolding copy_except
  copy_after ok id count [] h l = refl
  copy_after ok id count (r ∷ rs) h l =
      ground (arith, h count, copy_after ok id (count + 1) rs h (omega arith))

  copy_from :
      (ok : ℕ → Bool) (id count i : ℕ) (rs : List A)
      → ((n : ℕ) → ok n ≡ true)
      → id ≡ count + i
      → copy_except ok id count rs ≡ some (erase_idx rs i)
  unfolding copy_except
  copy_from ok id count i [] h e = refl
  copy_from ok id count zero (r ∷ rs) h e =
      ground (arith, copy_after ok id (count + 1) rs h (omega arith))
  copy_from ok id count (suc i) (r ∷ rs) h e =
      ground (arith, h count, copy_from ok id (count + 1) i rs h (omega arith))

  copy_except_lem :
      (ok : ℕ → Bool) (id : ℕ) (rs : List A)
      → ((n : ℕ) → ok n ≡ true)
      → copy_except ok id 1 rs ≡ some (without id rs)
  copy_except_lem ok zero rs h = copy_after ok 0 1 rs h (omega arith)
  copy_except_lem ok (suc i) rs h = copy_from ok (suc i) 1 i rs h (omega arith)

  -- The disk after a deletion that has gone through.
  pub record IsReplaced (before after : Disk A) (name : Bytes) (rs kept : List A) : Type ℓ where
    pub index : after name ≡ some kept
    pub backup : after (deleted name) ≡ some rs
    pub no_copy : after (tmpfile name) ≡ none
    pub others :
        (other : Bytes)
        → other ≢ name
        → other ≢ deleted name
        → other ≢ tmpfile name
        → after other ≡ before other

  pub commit_lem :
      (os : Os) (fs : Disk A) (name : Bytes) (rs kept : List A)
      → AllOk os
      → IsIndexName name
      → fs name ≡ some rs
      → ((commit os fs name kept).1 ≡ done) × IsReplaced fs (commit os fs name kept).0 name rs kept
  unfolding commit rename put
  commit_lem os fs name rs kept ok n e =
      let ab = bytes_ne _ _ n.not_tmpfile in
      let ac = bytes_ne _ _ n.not_deleted in
      let ba = bytes_ne _ _ (λ p. n.not_tmpfile (sym p)) in
      let ca = bytes_ne _ _ (λ p. n.not_deleted (sym p)) in
      let bc = bytes_ne _ _ (tmpfile-ne-deleted name) in
      let cb = bytes_ne _ _ (λ p. tmpfile-ne-deleted name (sym p)) in
      let aa = bytes_eq_refl name in
      let bb = bytes_eq_refl (tmpfile name) in
      let dd = bytes_eq_refl (deleted name) in
      (
        ground arith,
        record {
          index = ground arith;
          backup = ground arith;
          no_copy = ground arith;
          others = λ o x y z. ground (arith, bytes_ne _ _ x, bytes_ne _ _ y, bytes_ne _ _ z);
        },
      )

  delete_record-copies :
      (os : Os) (fs : Disk A) (name : Bytes) (size id : ℕ) (rs : List A)
      → AllOk os
      → size ≤ bufsize
      → fs name ≡ some rs
      → fs (tmpfile name) ≡ none
      → delete_record os fs name size id ≡ commit os fs name (without id rs)
  unfolding delete_record delete_copied
  delete_record-copies os fs name size id rs ok fits e absent =
      ground (arith, ok.opens, ok.locks, copy_except_lem os.write_ok id rs ok.writes)

  -- When every system call succeeds, the record fits the buffer and no copy of an earlier call is
  -- left, `delete_record` answers 0; the index then holds the old records without number `id` (all
  -- of them if there is no such number), the backup holds the old records, the copy is gone, and
  -- no other file has changed.
  pub delete_record_lem :
      (os : Os) (fs : Disk A) (name : Bytes) (size id : ℕ) (rs : List A)
      → AllOk os
      → IsIndexName name
      → size ≤ bufsize
      → fs name ≡ some rs
      → fs (tmpfile name) ≡ none
      → ((delete_record os fs name size id).1 ≡ done)
        × IsReplaced fs (delete_record os fs name size id).0 name rs (without id rs)
  delete_record_lem os fs name size id rs ok n fits e absent =
      rw (delete_record-copies os fs name size id rs ok fits e absent)
        (commit_lem os fs name rs (without id rs) ok n e)

  -- Where the records of the index are after a call.
  abbrev pub Safe : Disk A → Disk A → Bytes → Type ℓ
  Safe before after name =
      (after name ≡ before name) ⊎ ((after name ≡ none) × (after (deleted name) ≡ before name))

  commit-Safe :
      (os : Os) (fs : Disk A) (name : Bytes) (kept : List A)
      → IsIndexName name
      → (commit os fs name kept).1 ≡ failed
      → Safe fs (commit os fs name kept).0 name
  unfolding commit rename put
  commit-Safe os fs name kept n f =
      let ab = bytes_ne _ _ n.not_tmpfile in
      let ac = bytes_ne _ _ n.not_deleted in
      let ca = bytes_ne _ _ (λ p. n.not_deleted (sym p)) in
      let aa = bytes_eq_refl name in let dd = bytes_eq_refl (deleted name) in ground arith

  delete_copied-Safe :
      (os : Os) (fs : Disk A) (name : Bytes) (id : ℕ) (rs : List A)
      → IsIndexName name
      → (delete_copied os fs name id rs).1 ≡ failed
      → Safe fs (delete_copied os fs name id rs).0 name
  unfolding delete_copied
  delete_copied-Safe os fs name id rs n f = elim (Option-cases (copy_except os.write_ok id 1 rs)) [
    | inl e ↦ rw (e, delete_copied) (inl (put_ne fs (tmpfile name) name none n.not_tmpfile))
    | inr (kept, e) ↦
        rw (e, delete_copied) (commit-Safe os fs name kept n (rw (e, delete_copied) at f))
  ]

  -- Whatever fails, a call that answers -1 loses no record: the index is as it was, or it is
  -- missing and all of it stands under the backup's name.
  pub delete_record-Safe :
      (os : Os) (fs : Disk A) (name : Bytes) (size id : ℕ)
      → IsIndexName name
      → (delete_record os fs name size id).1 ≡ failed
      → Safe fs (delete_record os fs name size id).0 name
  unfolding delete_record
  delete_record-Safe os fs name size id n f = elim (Option-cases (fs name)) [
    | inl e ↦ ground arith
    | inr (rs, e) ↦ ground (arith, delete_copied-Safe os fs name id rs n)
  ]

  -- An old copy in the directory makes every call fail, with any answers of the system; nothing
  -- changes on the disk, so the copy stays as well.
  pub delete_record_stuck :
      (os : Os) (fs : Disk A) (name : Bytes) (size id : ℕ) (old : List A)
      → fs (tmpfile name) ≡ some old
      → delete_record os fs name size id ≡ (fs, failed)
  unfolding delete_record
  delete_record_stuck os fs name size id old e = ground arith

  -- Where the record fits, the copy was written and the first rename fails, the copy stays: the
  -- next call for any index whose copy has the same name, as all in that directory have, for any record
  -- and with any answers of the system, then answers -1 and changes nothing.
  pub delete_record_leaves_copy :
      (os later : Os) (fs : Disk A) (name name' : Bytes) (size size' id id' : ℕ) (rs kept : List A)
      → IsIndexName name
      → size ≤ bufsize
      → os.lock_ok ≡ true
      → os.open_ok ≡ true
      → fs name ≡ some rs
      → fs (tmpfile name) ≡ none
      → copy_except os.write_ok id 1 rs ≡ some kept
      → os.rename_first_ok ≡ false
      → tmpfile name' ≡ tmpfile name
      → let after = (delete_record os fs name size id).0 in
        delete_record later after name' size' id' ≡ (after, failed)
  unfolding delete_record delete_copied commit put
  delete_record_leaves_copy os later fs name name' size size' id id' rs kept n fits l o e absent c r
        same =
      delete_record_stuck later _ name' size' id' kept
        (rw same (ground (arith, bytes_eq_refl (tmpfile name))))
