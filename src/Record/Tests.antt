-- ===== src/Record/Tests.antt =====
-- Runs of bbssrc/src/record.c at concrete inputs.
use firebird_bbs.Base.Text.{Bytes, bytes_eq, codes}
use firebird_bbs.Base.{
  ℕ, ◌⊎◌, ◌+◌, ◌≡◌, refl, Bool, true, false, none, some, List, [], ◌∷◌, arith, inr, map, get_elem?,
  ◌==◌, if◌then◌else◌,
}
use firebird_bbs.Record.{
  done, failed, Disk, Os, get_num_records, append_record, get_record, search_record,
  substitute_record, read_at,
}
use firebird_bbs.Record.Delete.{
  FileHeader, tmpfile, deleted, dir_part, strrchr, post_path, copy_except, delete_record,
  delete_range, delete_copied, commit, cons_kept,
}
use firebird_bbs.Record.Delete.Single.{
  AllOk, IsIndexName, delete_record_lem, delete_record-Safe, delete_record_leaves_copy, IsReplaced,
  without, Safe,
}
use firebird_bbs.Record.Delete.Range.{
  delete_range_lem, delete_range_dangling, unmarked_of, covered, kept_of,
}
use firebird_bbs.Record.InPlace.{
  update_records, update_search, rewrite_record, next_index, delete_entry, find_first,
}
use firebird_bbs.Record.InPlace.Rewrites.{UpdatedOne, update_records-UpdatedOne, delete_entry_named}
use firebird_bbs.Record.RoundTrip.{
  get_record-append_record, get_record-substitute_record, search_record-Found, NoneBefore,
}
use firebird_bbs.Record.Write.{
  wrote, interrupted, Written, Sends, progress, after_sent, safewrite, safewrite-Sends,
  safewrite_total,
}

abbrev all_ok : Os
all_ok = record {
  open_ok = true;
  lock_ok = true;
  write_ok = λ n. true;
  rename_first_ok = true;
  rename_second_ok = true;
}

abbrev all_ok-AllOk : AllOk all_ok
all_ok-AllOk = record {
  opens = refl;
  locks = refl;
  writes = λ n. refl;
  renames_first = refl;
  renames_second = refl;
}

abbrev index_name : Bytes
index_name = codes "a/.DIR"

index_name-IsIndexName : IsIndexName index_name
unfolding tmpfile deleted dir_part strrchr
index_name-IsIndexName = record { not_tmpfile = λ e. ground arith; not_deleted = λ e. ground arith }

-- A directory that holds an index with three records, and nothing else.
abbrev numbers : List ℕ
numbers = 5 ∷ 6 ∷ 7 ∷ []

abbrev one_index : Disk ℕ
one_index other = if bytes_eq other index_name then some numbers else none

safewrite-Sends_example :
    Sends (1 ∷ 2 ∷ 3 ∷ []) (record { sent = 1 ∷ 2 ∷ 3 ∷ []; success = true; later = [] })
unfolding safewrite after_sent
safewrite-Sends_example =
    safewrite-Sends (interrupted ∷ wrote 2 ∷ wrote 9 ∷ []) (1 ∷ 2 ∷ 3 ∷ [])
      (record { sent = 1 ∷ 2 ∷ 3 ∷ []; success = true; later = [] }) refl

safewrite_total_example :
    (w : Written) × (safewrite (interrupted ∷ wrote 1 ∷ wrote 1 ∷ []) (7 ∷ 8 ∷ []) ≡ some w)
unfolding progress
safewrite_total_example =
    safewrite_total (interrupted ∷ wrote 1 ∷ wrote 1 ∷ []) (7 ∷ 8 ∷ []) (omega arith) (omega arith)

delete_record_lem_example :
    ((delete_record all_ok one_index index_name 4 2).1 ≡ done)
    × IsReplaced one_index
        (delete_record all_ok one_index index_name 4 2).0
        index_name
        numbers
        (without 2 numbers)
unfolding tmpfile dir_part strrchr bytes_eq
delete_record_lem_example =
    delete_record_lem all_ok one_index index_name 4 2 numbers all_ok-AllOk index_name-IsIndexName
      (omega arith) refl refl

-- The second rename fails.
abbrev last_rename_fails : Os
last_rename_fails = record all_ok { rename_second_ok = false }

delete_record-Safe_example :
    Safe one_index (delete_record last_rename_fails one_index index_name 4 2).0 index_name
unfolding delete_record delete_copied copy_except commit cons_kept tmpfile dir_part strrchr bytes_eq
delete_record-Safe_example =
    delete_record-Safe last_rename_fails one_index index_name 4 2 index_name-IsIndexName refl

abbrev first_rename_fails : Os
first_rename_fails = record all_ok { rename_first_ok = false }

-- Another index in the same directory.
abbrev other_index : Bytes
other_index = codes "a/.DIGEST"

delete_record_leaves_copy_example :
    delete_record all_ok
      (delete_record first_rename_fails one_index index_name 4 2).0
      other_index
      4
      1
    ≡ ((delete_record first_rename_fails one_index index_name 4 2).0, failed)
unfolding copy_except cons_kept tmpfile dir_part strrchr bytes_eq
delete_record_leaves_copy_example =
    delete_record_leaves_copy first_rename_fails all_ok one_index index_name other_index 4 4 2 1
      numbers (5 ∷ 7 ∷ []) index_name-IsIndexName (omega arith) refl refl refl refl refl refl refl

abbrev post : ℕ → Bool → FileHeader
post n marked = record { filename = n ∷ []; owner = []; title = []; marked = marked }

abbrev posts : List FileHeader
posts = post 1 false ∷ post 2 false ∷ post 3 true ∷ post 4 false ∷ post 5 false ∷ []

abbrev board : Disk FileHeader
board other = if bytes_eq other index_name then some posts else none

delete_range_lem_example :
    ((delete_range all_ok board index_name 2 4).status ≡ done)
    × ((delete_range all_ok board index_name 2 4).removed
        ≡ map (λ h. post_path index_name h.filename) (unmarked_of (covered 2 4 posts)))
    × IsReplaced board
        (delete_range all_ok board index_name 2 4).disk
        index_name
        posts
        (kept_of 2 4 posts)
unfolding tmpfile dir_part strrchr bytes_eq
delete_range_lem_example =
    delete_range_lem all_ok board index_name 2 4 posts all_ok-AllOk index_name-IsIndexName
      (omega arith) (omega arith) refl refl

-- The disk is full at the second record.
abbrev full_disk : Os
full_disk = record all_ok { write_ok = λ n. n == 1 }

delete_range_dangling_example :
    ((delete_range full_disk board index_name 1 1).status ≡ failed)
    × ((delete_range full_disk board index_name 1 1).disk index_name ≡ some posts)
    × ((delete_range full_disk board index_name 1 1).removed ≡ post_path index_name (1 ∷ []) ∷ [])
unfolding tmpfile dir_part strrchr bytes_eq
delete_range_dangling_example =
    delete_range_dangling full_disk board index_name 1 (post 1 false) (post 2 false)
      (post 3 true ∷ post 4 false ∷ post 5 false ∷ []) index_name-IsIndexName (omega arith) refl
      refl refl refl refl refl refl

abbrev is_six : ℕ → Bool
is_six n = n == 6

update_records-UpdatedOne_example :
    UpdatedOne is_six (λ n. n + 10) numbers (update_records all_ok is_six (λ n. n + 10) 1 numbers).0
unfolding update_records update_search rewrite_record find_first next_index read_at
update_records-UpdatedOne_example =
    update_records-UpdatedOne all_ok is_six (λ n. n + 10) 1 numbers refl

delete_entry_named_example : delete_entry all_ok is_six 2 numbers ≡ (5 ∷ 7 ∷ [], done)
delete_entry_named_example = delete_entry_named all_ok is_six 1 numbers 6 (λ m. refl) refl refl

get_record-append_record_example :
    let after = append_record all_ok one_index index_name 8 in
    let n = get_num_records one_index index_name in
    (after.1 ≡ done)
    × (get_num_records after.0 index_name ≡ n + 1)
    × (get_record all_ok after.0 index_name (n + 1) ≡ some 8)
unfolding bytes_eq
get_record-append_record_example = get_record-append_record all_ok one_index index_name 8 refl refl

get_record-substitute_record_example :
    get_record all_ok (substitute_record 0 all_ok one_index index_name 7 2).0 index_name 1
    ≡ get_record all_ok one_index index_name 1
unfolding bytes_eq
get_record-substitute_record_example =
    get_record-substitute_record 0 all_ok one_index index_name 7 1 0 numbers refl refl refl
      (inr (omega arith))

search_record-Found_example :
    ((search_record all_ok one_index index_name is_six ≡ 0) × NoneBefore is_six numbers 3)
    ⊎ ((k : ℕ) × (r : ℕ) × (search_record all_ok one_index index_name is_six ≡ 1 + k)
        × (get_elem? numbers k ≡ some r)
        × (is_six r ≡ true)
        × NoneBefore is_six numbers k)
unfolding bytes_eq
search_record-Found_example =
    search_record-Found all_ok one_index index_name is_six numbers refl refl
