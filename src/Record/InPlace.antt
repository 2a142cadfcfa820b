-- ===== src/Record/InPlace.antt =====
-- `update_file` and `delete_file` of bbssrc/src/record.c: they look at entry `ent` first and then
-- search the whole file, and they rewrite the file in place.
pub mod Rewrites
use firebird_bbs.Base.Text.{Bytes}
use firebird_bbs.Base.{
  ℕ, zero, suc, ◌+◌, ◌-◌, Bool, true, false, Option, none, some, List, [], ◌∷◌, ltb, if◌then◌else◌,
  length, get_elem?, set, take,
}
use firebird_bbs.Record.{Status, done, failed, Disk, Os, bufsize, put, read_at}

unfoldable pub next_index : Option ℕ → Option ℕ
next_index none = none
next_index (some i) = some (suc i)

module _ {ℓ} {A : Type ℓ} where
  -- The position of the first record that the check accepts.
  unfoldable pub find_first : (A → Bool) → List A → Option ℕ
  unfolding next_index
  find_first check [] = none
  find_first check (r ∷ rs) =
      let rest = next_index (find_first check rs) in if check r then some 0 else rest

  -- The record that was read is written back, updated, at the position where it was read.
  unfoldable pub rewrite_record : Os → (A → A) → List A → ℕ → List A × Status
  rewrite_record os fileupdate rs i = elim (get_elem? rs i) [
    | none ↦ (rs, failed)
    | some r ↦ if os.write_ok 0 then (set rs i (fileupdate r), done) else (rs, failed)
  ]

  unfoldable pub update_search : Os → (A → Bool) → (A → A) → List A → List A × Status
  unfolding find_first rewrite_record
  update_search os filecheck fileupdate rs = elim (find_first filecheck rs) [
    | none ↦ (rs, failed)
    | some i ↦ rewrite_record os fileupdate rs i
  ]

  -- `ent - 1` is only read where `read_at` has found a record, so `ent` is not 0.
  unfoldable pub update_records : Os → (A → Bool) → (A → A) → ℕ → List A → List A × Status
  unfolding update_search rewrite_record read_at
  update_records os filecheck fileupdate ent rs = elim (read_at rs ent) [
    | none ↦ update_search os filecheck fileupdate rs
    | some r ↦
        if filecheck r
        then rewrite_record os fileupdate rs (ent - 1)
        else update_search os filecheck fileupdate rs
  ]

  store : Disk A → Bytes → List A × Status → Disk A × Status
  store fs name (rs, status) = (put fs name (some rs), status)

  pub update_file : Os → Disk A → Bytes → ℕ → ℕ → (A → Bool) → (A → A) → Disk A × Status
  unfolding update_records store
  update_file os fs name size ent filecheck fileupdate =
      if ltb bufsize size
      then (fs, failed)
      else if os.open_ok
      then elim (fs name) [
        | none ↦ (fs, failed)
        | some rs ↦ store fs name (update_records os filecheck fileupdate ent rs)
      ]
      else (fs, failed)

  -- The moves of `delete_file`: `n` rounds from `i`, each of which reads record `i + ahead` and
  -- writes it one place before; a failed read or write breaks the loop.
  pub shift_down : (ℕ → Bool) → ℕ → ℕ → ℕ → List A → List A
  shift_down ok zero i ahead rs = rs
  shift_down ok (suc n) i ahead rs = elim (get_elem? rs (i + ahead)) [
    | none ↦ rs
    | some r ↦ elim (ok i) [
      | true ↦ shift_down ok n (i + 1) ahead (set rs (i + ahead - 1) r)
      | false ↦ rs
    ]
  ]

  -- `ent` is the entry that passed the check: reads record index `i`, writes index `i - 1`.
  pub close_gap : Os → ℕ → List A → List A
  unfolding shift_down
  close_gap os ent rs = take (length rs - 1) (shift_down os.write_ok (length rs - ent) ent 0 rs)

  -- After the search `ent` counts from 1 as well, but here the loop reads index `i + 1` and writes
  -- index `i`.
  pub close_gap_found : Os → ℕ → List A → List A
  unfolding shift_down
  close_gap_found os ent rs =
      take (length rs - 1) (shift_down os.write_ok (length rs - ent) ent 1 rs)

  delete_search : Os → (A → Bool) → List A → List A × Status
  unfolding find_first close_gap_found
  delete_search os filecheck rs = elim (find_first filecheck rs) [
    | none ↦ (rs, failed)
    | some i ↦ (close_gap_found os (i + 1) rs, done)
  ]

  pub delete_entry : Os → (A → Bool) → ℕ → List A → List A × Status
  unfolding delete_search close_gap read_at
  delete_entry os filecheck ent rs = elim (read_at rs ent) [
    | none ↦ delete_search os filecheck rs
    | some r ↦ if filecheck r then (close_gap os ent rs, done) else delete_search os filecheck rs
  ]

  pub delete_file : Os → Disk A → Bytes → ℕ → ℕ → (A → Bool) → Disk A × Status
  unfolding delete_entry store
  delete_file os fs name size ent filecheck =
      if ltb bufsize size
      then (fs, failed)
      else if os.open_ok
      then elim (fs name) [
        | none ↦ (fs, failed)
        | some rs ↦ store fs name (delete_entry os filecheck ent rs)
      ]
      else (fs, failed)
