-- ===== src/Record.antt =====
-- bbssrc/src/record.c: flat files of fixed-size records, such as a board's `.DIR` index.
-- A file is the list of its whole records, and a missing file is `none`. A write that fails writes
-- nothing of its record. Record numbers count from 1; a number below 1 is 0 here, and makes
-- `lseek` fail as any negative offset does. Offsets, which are an `int` in the source, are not bounded. POSTBUG is not defined in the configuration.
pub mod Write
pub mod Delete
pub mod InPlace
pub mod RoundTrip
pub mod Files
pub mod Tests
use firebird_bbs.Base.Text.{Bytes, bytes_eq}
use firebird_bbs.Base.{
  ℕ, zero, suc, ◌+◌, ◌-◌, ◌/◌, Bool, true, false, Option, none, some, List, [], ◌∷◌, ◌++◌, ltb,
  ◌==◌, if◌then◌else◌, length, get_elem?, set, take, drop, replicate,
}

-- The return codes 0 and -1.
pub data Status : Type 0 where
  done failed : Status

-- Index files by name.
abbrev pub Disk {ℓ} : Type ℓ → Type ℓ
Disk A = Bytes → Option (List A)

-- What the system calls of one operation answer.
pub record Os : Type 0 where
  pub open_ok : Bool
  pub lock_ok : Bool
  pub write_ok : ℕ → Bool
  pub rename_first_ok : Bool
  pub rename_second_ok : Bool

-- `#define BUFSIZE (8192)`
abbrev pub bufsize : ℕ
bufsize = 8192

-- The write follows also when `lseek` has failed; it then goes to the start of the file.
seek_for_write : ℕ → ℕ
seek_for_write zero = 0
seek_for_write (suc i) = i

module _ {ℓ} {A : Type ℓ} where
  unfoldable pub put : Disk A → Bytes → Option (List A) → Disk A
  put fs name content other = if bytes_eq other name then content else fs other

  -- `rename(from, to)` of a file that exists.
  unfoldable pub rename : Disk A → Bytes → Bytes → Disk A
  unfolding put
  rename fs from to = put (put fs to (fs from)) from none

  pub get_num_records : Disk A → Bytes → ℕ
  get_num_records fs name = elim (fs name) [ none ↦ 0 | some rs ↦ length rs ]

  append_to : Option (List A) → A → List A
  append_to none r = r ∷ []
  append_to (some rs) r = rs ++ r ∷ []

  -- What is in the file once `open(O_WRONLY | O_CREAT)` has succeeded.
  pub created : Option (List A) → List A
  created none = []
  created (some rs) = rs

  -- A write error is only reported, and the result is 0 all the same.
  pub append_record : Os → Disk A → Bytes → A → Disk A × Status
  unfolding append_to created
  append_record os fs name r =
      if os.open_ok
      then (
        put fs name (some (if os.write_ok 0 then append_to (fs name) r else created (fs name))),
        done,
      )
      else (fs, failed)

  -- `lseek` to record `id`, and one `read`.
  unfoldable pub read_at : List A → ℕ → Option A
  read_at rs zero = none
  read_at rs (suc i) = get_elem? rs i

  pub get_record : Os → Disk A → Bytes → ℕ → Option A
  unfolding read_at
  get_record os fs name id =
      if os.open_ok then elim (fs name) [ none ↦ none | some rs ↦ read_at rs id ] else none

  -- The records read; their number is the result, and a file that cannot be opened is -1.
  pub get_records : Os → Disk A → Bytes → ℕ → ℕ → Option (List A)
  get_records os fs name zero number =
      if os.open_ok then elim (fs name) [ none ↦ none | some rs ↦ some [] ] else none
  get_records os fs name (suc i) number =
      if os.open_ok
      then elim (fs name) [ none ↦ none | some rs ↦ some (take number (drop i rs)) ]
      else none

  -- One write at record index `i`: past the end the gap is filled with zero records.
  pub write_at : A → List A → ℕ → A → List A
  write_at gap [] zero r = r ∷ []
  write_at gap [] (suc i) r = gap ∷ write_at gap [] i r
  write_at gap (x ∷ xs) zero r = r ∷ xs
  write_at gap (x ∷ xs) (suc i) r = x ∷ write_at gap xs i r

  pub substitute_record : A → Os → Disk A → Bytes → A → ℕ → Disk A × Status
  unfolding write_at created seek_for_write
  substitute_record gap os fs name r id =
      if os.open_ok
      then (
        put fs name (
            some (
              if os.write_ok 0
              then write_at gap (created (fs name)) (seek_for_write id) r
              else created (fs name))),
        done,
      )
      else (fs, failed)

-- What a callback answers to `apply_record`: QUIT or any other value.
pub data Applied : Type 0 where
  finished quit cannot : Applied

module _ {ℓ κ} {A : Type ℓ} {S : Type κ} where
  -- The callback works on a state of its caller.
  apply_loop : (A → S → Bool × S) → List A → S → Applied × S
  apply_loop f [] s = (finished, s)
  apply_loop f (r ∷ rs) s =
      let next = f r s in
      let rest = apply_loop f rs next.1 in if next.0 then (quit, next.1) else rest

  pub apply_record : Os → Disk A → Bytes → (A → S → Bool × S) → ℕ → S → Applied × S
  unfolding apply_loop
  apply_record os fs name f size s =
      if ltb bufsize size
      then (cannot, s)
      else if os.open_ok
      then elim (fs name) [ none ↦ (cannot, s) | some rs ↦ apply_loop f rs s ]
      else (cannot, s)

module _ {ℓ} {A : Type ℓ} where
  search_loop : (A → Bool) → ℕ → List A → ℕ
  search_loop p id [] = 0
  search_loop p id (r ∷ rs) = let rest = search_loop p (id + 1) rs in if p r then id else rest

  -- The number of the first record that the callback accepts, or 0.
  pub search_record : Os → Disk A → Bytes → (A → Bool) → ℕ
  unfolding search_loop
  search_record os fs name p =
      if os.open_ok then elim (fs name) [ none ↦ 0 | some rs ↦ search_loop p 1 rs ] else 0
