-- ===== src/Record/RoundTrip.antt =====
-- `append_record`, `substitute_record`, `get_record` and `search_record` of bbssrc/src/record.c.
use firebird_bbs.Base.Text.{Bytes}
use firebird_bbs.Base.{
  ℕ, zero, suc, ◌+◌, ◌<◌, ◌≡◌, ◌≢◌, refl, sym, ap, ◌∙◌, Bool, true, false, Option, none, some, List,
  [], ◌∷◌, arith, length, length-append, get_elem?, get_elem?-append_self, if◌then◌else◌,
  Bool-cases, inl, inr, ◌⊎◌, ◌==◌, ==_iff,
}
use firebird_bbs.Record.{
  done, Disk, Os, put, read_at, get_num_records, get_record, append_record, substitute_record,
  search_record, append_to, created, write_at, search_loop,
}
use firebird_bbs.Record.Files.{put_self}

module _ {ℓ} {A : Type ℓ} where
  get_record-put :
      (os : Os) (fs : Disk A) (name : Bytes) (rs : List A) (id : ℕ)
      → os.open_ok ≡ true
      → get_record os (put fs name (some rs)) name id ≡ read_at rs id
  unfolding get_record
  get_record-put os fs name rs id o = rw (o, put_self fs name (some rs))

  get_record_there :
      (os : Os) (fs : Disk A) (name : Bytes) (rs : List A) (id : ℕ)
      → os.open_ok ≡ true
      → fs name ≡ some rs
      → get_record os fs name id ≡ read_at rs id
  unfolding get_record
  get_record_there os fs name rs id o e = rw (o, e)

  read_at-append_to :
      (content : Option (List A)) (r : A) (n : ℕ)
      → n ≡ length (created content)
      → read_at (append_to content r) (n + 1) ≡ some r
  unfolding read_at append_to created
  read_at-append_to none r n e = ground arith
  read_at-append_to (some rs) r n e = ground (arith, get_elem?-append_self rs [] r)

  append-put :
      (os : Os) (fs : Disk A) (name : Bytes) (r : A)
      → os.open_ok ≡ true
      → os.write_ok 0 ≡ true
      → append_record os fs name r ≡ (put fs name (some (append_to (fs name) r)), done)
  unfolding append_record
  append-put os fs name r o w = rw (o, w)

  num-put :
      (fs : Disk A) (name : Bytes) (rs : List A)
      → get_num_records (put fs name (some rs)) name ≡ length rs
  unfolding get_num_records
  num-put fs name rs = rw (put_self fs name (some rs), get_num_records)

  num-created : (fs : Disk A) (name : Bytes) → get_num_records fs name ≡ length (created (fs name))
  unfolding get_num_records created
  num-created fs name = ground arith

  length-append_to :
      (content : Option (List A)) (r : A)
      → length (append_to content r) ≡ length (created content) + 1
  unfolding append_to created
  length-append_to none r = omega arith
  length-append_to (some rs) r = omega (arith, length-append rs (r ∷ []))

  -- An appended record is the last one: with successful calls, `append_record` answers 0, the new
  -- record is read back at the old number of records plus one, and that is the new number.
  pub get_record-append_record :
      (os : Os) (fs : Disk A) (name : Bytes) (r : A)
      → os.open_ok ≡ true
      → os.write_ok 0 ≡ true
      → let after = append_record os fs name r in
        let n = get_num_records fs name in
        (after.1 ≡ done)
        × (get_num_records after.0 name ≡ n + 1)
        × (get_record os after.0 name (n + 1) ≡ some r)
  get_record-append_record os fs name r o w = rw (append-put os fs name r o w) (
    refl,
    num-put fs name (append_to (fs name) r)
        ∙ length-append_to (fs name) r
        ∙ ap (λ k. k + 1) (sym (num-created fs name)),
    get_record-put os fs name (append_to (fs name) r) (get_num_records fs name + 1) o
        ∙ read_at-append_to (fs name) r (get_num_records fs name) (num-created fs name),
  )

  read_at-write_at :
      (gap : A) (rs : List A) (i : ℕ) (r : A) → get_elem? (write_at gap rs i r) i ≡ some r
  unfolding write_at
  read_at-write_at gap [] zero r = refl
  read_at-write_at gap [] (suc i) r = read_at-write_at gap [] i r
  read_at-write_at gap (x ∷ xs) zero r = refl
  read_at-write_at gap (x ∷ xs) (suc i) r = read_at-write_at gap xs i r

  write_at-other :
      (gap : A) (rs : List A) (i j : ℕ) (r : A)
      → j ≢ i
      → j < length rs
      → get_elem? (write_at gap rs i r) j ≡ get_elem? rs j
  unfolding write_at
  write_at-other gap [] i j r h l = absurd (omega arith)
  write_at-other gap (x ∷ xs) zero zero r h l = absurd (h refl)
  write_at-other gap (x ∷ xs) zero (suc j) r h l = refl
  write_at-other gap (x ∷ xs) (suc i) zero r h l = refl
  write_at-other gap (x ∷ xs) (suc i) (suc j) r h l =
      write_at-other gap xs i j r (λ e. h (ap suc e)) (omega arith)

  substitute-put :
      (gap : A) (os : Os) (fs : Disk A) (name : Bytes) (r : A) (i : ℕ) (rs : List A)
      → os.open_ok ≡ true
      → os.write_ok 0 ≡ true
      → fs name ≡ some rs
      → substitute_record gap os fs name r (suc i)
        ≡ (put fs name (some (write_at gap rs i r)), done)
  unfolding substitute_record
  substitute-put gap os fs name r i rs o w e = rw (o, w, e)

  write_at_lem :
      (gap : A) (rs : List A) (i j : ℕ) (r : A)
      → (j ≡ i) ⊎ (j < length rs)
      → get_elem? (write_at gap rs i r) j ≡ (if j == i then some r else get_elem? rs j)
  write_at_lem gap rs i j r h = elim (Bool-cases (j == i)) [
    | inl e ↦
        let q : j ≡ i = (==_iff j i).0 e in
        rw (q, (==_iff i i).1 refl) (read_at-write_at gap rs i r)
    | inr e ↦
        let ne : j ≢ i = ground arith in
        rw e (write_at-other gap rs i j r ne (elim h [ inl q ↦ absurd (ne q) | inr l ↦ l ]))
  ]

  -- With successful calls, after `substitute_record` at number `i + 1` that number holds the new
  -- record, and every other number that the file had before holds what it held: so it is for each
  -- number `j + 1` that is the one written or was in the file.
  pub get_record-substitute_record :
      (gap : A) (os : Os) (fs : Disk A) (name : Bytes) (r : A) (i j : ℕ) (rs : List A)
      → os.open_ok ≡ true
      → os.write_ok 0 ≡ true
      → fs name ≡ some rs
      → (j ≡ i) ⊎ (j < length rs)
      → get_record os (substitute_record gap os fs name r (suc i)).0 name (suc j)
        ≡ (if j == i then some r else get_record os fs name (suc j))
  unfolding read_at
  get_record-substitute_record gap os fs name r i j rs o w e h =
      rw (substitute-put gap os fs name r i rs o w e) (
        get_record-put os fs name (write_at gap rs i r) (suc j) o
        ∙ write_at_lem gap rs i j r h
        ∙ ap (λ (x : Option A). if j == i then some r else x)
            (sym (get_record_there os fs name rs (suc j) o e)))

  -- The records before index `k` all fail the test.
  abbrev pub NoneBefore : (A → Bool) → List A → ℕ → Type ℓ
  NoneBefore p rs k = (j : ℕ) (r : A) → j < k → get_elem? rs j ≡ some r → p r ≡ false

  abbrev Found : (A → Bool) → List A → ℕ → ℕ → Type ℓ
  Found p rs id found =
      ((found ≡ 0) × NoneBefore p rs (length rs))
      ⊎ ((k : ℕ) × (r : A) × (found ≡ id + k)
          × (get_elem? rs k ≡ some r)
          × (p r ≡ true)
          × NoneBefore p rs k)

  NoneBefore-cons :
      (p : A → Bool) (x : A) (rs : List A) (k : ℕ)
      → p x ≡ false
      → NoneBefore p rs k
      → NoneBefore p (x ∷ rs) (suc k)
  NoneBefore-cons p x rs k f h zero r l e = ground arith
  NoneBefore-cons p x rs k f h (suc j) r l e = h j r (omega arith) e

  search_loop-Found :
      (p : A → Bool) (id : ℕ) (rs : List A) → 0 < id → Found p rs id (search_loop p id rs)
  unfolding search_loop
  search_loop-Found p id [] h = inl (refl, λ j r l e. absurd (omega arith))
  search_loop-Found p id (x ∷ rs) h = elim (Bool-cases (p x)) [
    | inl t ↦ rw t (inr (0, x, omega arith, refl, t, λ j r l e. absurd (omega arith)))
    | inr t ↦ rw t (go (search_loop-Found p (id + 1) rs (omega arith)) t)
  ]
    where
      go :
          Found p rs (id + 1) (search_loop p (id + 1) rs)
          → p x ≡ false
          → Found p (x ∷ rs) id (search_loop p (id + 1) rs)
      go (inl (z, none_ok)) t = inl (z, NoneBefore-cons p x rs (length rs) t none_ok)
      go (inr (k, r, e, g, c, before)) t =
          inr (suc k, r, omega arith, g, c, NoneBefore-cons p x rs k t before)

  -- On a file that opens, `search_record` answers 0 exactly when no record passes the test, and
  -- otherwise the number, counted from 1, of the first one that does.
  pub search_record-Found :
      (os : Os) (fs : Disk A) (name : Bytes) (p : A → Bool) (rs : List A)
      → os.open_ok ≡ true
      → fs name ≡ some rs
      → ((search_record os fs name p ≡ 0) × NoneBefore p rs (length rs))
        ⊎ ((k : ℕ) × (r : A) × (search_record os fs name p ≡ 1 + k)
            × (get_elem? rs k ≡ some r)
            × (p r ≡ true)
            × NoneBefore p rs k)
  unfolding search_record
  search_record-Found os fs name p rs o e = rw (o, e) (search_loop-Found p 1 rs (omega arith))
