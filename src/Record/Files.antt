-- ===== src/Record/Files.antt =====
-- Reading a disk after `put` and `rename`, for bbssrc/src/record.c.
use firebird_bbs.Base.Text.{Bytes, bytes_eq, bytes_eq_refl, bytes_eq_sound}
use firebird_bbs.Base.{◌≡◌, ◌≢◌, false, Option, none, List, arith, Bool-cases, inl, inr}
use firebird_bbs.Record.{Disk, put, rename}

pub bytes_ne : (s t : Bytes) → s ≢ t → bytes_eq s t ≡ false
bytes_ne s t h = elim (Bool-cases (bytes_eq s t)) [
  | inl e ↦ absurd (h (bytes_eq_sound s t e))
  | inr e ↦ e
]

module _ {ℓ} {A : Type ℓ} where
  pub put_self : (fs : Disk A) (name : Bytes) (c : Option (List A)) → put fs name c name ≡ c
  unfolding put
  put_self fs name c = ground (arith, bytes_eq_refl name)

  pub put_ne :
      (fs : Disk A) (name other : Bytes) (c : Option (List A))
      → other ≢ name
      → put fs name c other ≡ fs other
  unfolding put
  put_ne fs name other c h = ground (arith, bytes_ne other name h)

  pub rename_to : (fs : Disk A) (from to : Bytes) → to ≢ from → rename fs from to to ≡ fs from
  unfolding rename put
  rename_to fs from to h = ground (arith, bytes_ne to from h, bytes_eq_refl to)

  pub rename_from : (fs : Disk A) (from to : Bytes) → rename fs from to from ≡ none
  unfolding rename put
  rename_from fs from to = ground (arith, bytes_eq_refl from)

  pub rename_ne :
      (fs : Disk A) (from to other : Bytes)
      → other ≢ from
      → other ≢ to
      → rename fs from to other ≡ fs other
  unfolding rename put
  rename_ne fs from to other h k = ground (arith, bytes_ne other from h, bytes_ne other to k)
