-- ===== src/Record/InPlace/Rewrites.antt =====
-- The records of a file after `update_file` and `delete_file` of bbssrc/src/record.c.
use firebird_bbs.Base.{
  ℕ, zero, suc, ◌+◌, ◌-◌, ◌≤◌, ◌<◌, ◌≡◌, ◌≢◌, refl, ap, ◌∙◌, Bool, true, none, some, List, [], ◌∷◌,
  arith, length, get_elem?, set, take, erase_idx, length-set, get_elem?-lt, Bool-cases,
  Option-cases, inl, inr,
}
use firebird_bbs.Record.{done, Os, read_at}
use firebird_bbs.Record.InPlace.{
  next_index, find_first, rewrite_record, update_search, update_records, shift_down, close_gap,
  close_gap_found, delete_search, delete_entry,
}

module _ {ℓ} {A : Type ℓ} where
  find_first_sound :
      (check : A → Bool) (rs : List A) (i : ℕ)
      → find_first check rs ≡ some i
      → (r : A) × (get_elem? rs i ≡ some r) × (check r ≡ true)
  unfolding find_first next_index
  find_first_sound check [] i e = cc
  find_first_sound check (r ∷ rs) i e = elim (Bool-cases (check r)) [
    | inl t ↦ (r, ground arith, t)
    | inr t ↦ elim (Option-cases (find_first check rs)) [
      | inl n ↦ absurd (ground arith)
      | inr (j, p) ↦
          let (s, g, c) = find_first_sound check rs j p in
          let e' : i ≡ suc j = ground arith in (s, rw e' g, c)
    ]
  ]

  find_first_complete :
      (check : A → Bool) (rs : List A) (i : ℕ) (r : A)
      → get_elem? rs i ≡ some r
      → check r ≡ true
      → find_first check rs ≢ none
  unfolding find_first next_index
  find_first_complete check [] i r g c e = cc
  find_first_complete check (x ∷ rs) zero r g c e = ground arith
  find_first_complete check (x ∷ rs) (suc i) r g c e =
      ground (arith, find_first_complete check rs i r g c)

  -- `rs'` is `rs` with one record that passes the check updated, in its place.
  abbrev pub UpdatedOne : (A → Bool) → (A → A) → List A → List A → Type ℓ
  UpdatedOne check f rs rs' =
      (i : ℕ) × (r : A) × (get_elem? rs i ≡ some r) × (check r ≡ true) × (rs' ≡ set rs i (f r))

  rewrite_UpdatedOne :
      (os : Os) (check : A → Bool) (f : A → A) (rs : List A) (i : ℕ)
      → ((r : A) × (get_elem? rs i ≡ some r) × (check r ≡ true))
      → (rewrite_record os f rs i).1 ≡ done
      → UpdatedOne check f rs (rewrite_record os f rs i).0
  unfolding rewrite_record
  rewrite_UpdatedOne os check f rs i (r, g, c) d = (i, r, g, c, ground arith)

  update_search-UpdatedOne :
      (os : Os) (check : A → Bool) (f : A → A) (rs : List A)
      → (update_search os check f rs).1 ≡ done
      → UpdatedOne check f rs (update_search os check f rs).0
  unfolding update_search
  update_search-UpdatedOne os check f rs d = elim (Option-cases (find_first check rs)) [
    | inl n ↦ absurd (ground arith)
    | inr (i, p) ↦
        rw (p, update_search)
          (rewrite_UpdatedOne os check f rs i (find_first_sound check rs i p)
            (rw (p, update_search) at d))
  ]

  read_at_pred :
      (rs : List A) (ent : ℕ) (r : A) → read_at rs ent ≡ some r → get_elem? rs (ent - 1) ≡ some r
  unfolding read_at
  read_at_pred rs zero r e = cc
  read_at_pred rs (suc i) r e = let p : suc i - 1 ≡ i = omega arith in rw p e

  -- When `update_file` answers 0, exactly one record of the file has been replaced, at its place,
  -- by its updated version, and that record had passed the check.
  pub update_records-UpdatedOne :
      (os : Os) (check : A → Bool) (f : A → A) (ent : ℕ) (rs : List A)
      → (update_records os check f ent rs).1 ≡ done
      → UpdatedOne check f rs (update_records os check f ent rs).0
  unfolding update_records
  update_records-UpdatedOne os check f ent rs d = elim (Option-cases (read_at rs ent)) [
    | inl n ↦
        rw (n, update_records)
          (update_search-UpdatedOne os check f rs (rw (n, update_records) at d))
    | inr (r, p) ↦ elim (Bool-cases (check r)) [
      | inl c ↦
          rw (p, update_records, c)
            (rewrite_UpdatedOne os check f rs (ent - 1) (r, read_at_pred rs ent r p, c)
              (rw (p, update_records, c) at d))
      | inr c ↦
          rw (p, update_records, c)
            (update_search-UpdatedOne os check f rs (rw (p, update_records, c) at d))
    ]
  ]

  rewrite_total :
      (os : Os) (f : A → A) (rs : List A) (i : ℕ) (r : A)
      → os.write_ok 0 ≡ true
      → get_elem? rs i ≡ some r
      → (rewrite_record os f rs i).1 ≡ done
  unfolding rewrite_record
  rewrite_total os f rs i r w g = ground arith

  -- If the write succeeds and any record at all passes the check, the update is made, whatever
  -- entry was named.
  pub update_records_total :
      (os : Os) (check : A → Bool) (f : A → A) (ent : ℕ) (rs : List A) (i : ℕ) (r : A)
      → os.write_ok 0 ≡ true
      → get_elem? rs i ≡ some r
      → check r ≡ true
      → (update_records os check f ent rs).1 ≡ done
  unfolding update_records update_search
  update_records_total os check f ent rs i r w g c = elim (Option-cases (find_first check rs)) [
    | inl n ↦ absurd (find_first_complete check rs i r g c n)
    | inr (j, p) ↦
        let (s, q, _) = find_first_sound check rs j p in
        let found = rewrite_total os f rs j s w q in
        elim (Option-cases (read_at rs ent)) [
          | inl n ↦ rw (n, update_records, p, update_search) found
          | inr (t, k) ↦
              ground (arith, rewrite_total os f rs (ent - 1) t w (read_at_pred rs ent t k))
        ]
  ]

  take_erase : (rs : List A) (k : ℕ) → suc k ≡ length rs → take k rs ≡ erase_idx rs k
  take_erase [] k e = absurd (omega arith)
  take_erase (x ∷ []) zero e = refl
  take_erase (x ∷ []) (suc k) e = absurd (omega arith)
  take_erase (x ∷ y ∷ rs) zero e = absurd (omega arith)
  take_erase (x ∷ y ∷ rs) (suc k) e = ap (◌∷◌ x) (take_erase (y ∷ rs) k (omega arith))

  take_erase_last :
      (rs : List A) (k : ℕ) → suc k ≡ length rs → take (length rs - 1) rs ≡ erase_idx rs k
  take_erase_last rs k e = let p : length rs - 1 ≡ k = omega arith in rw p (take_erase rs k e)

  erase_idx-set :
      (rs : List A) (k : ℕ) (r : A)
      → get_elem? rs (suc k) ≡ some r
      → erase_idx (set rs k r) (suc k) ≡ erase_idx rs k
  erase_idx-set [] k r e = refl
  erase_idx-set (x ∷ []) k r e = absurd (ground arith)
  erase_idx-set (x ∷ y ∷ rs) zero r e = ground arith
  erase_idx-set (x ∷ y ∷ rs) (suc k) r e = ap (◌∷◌ x) (erase_idx-set (y ∷ rs) k r e)

  get_elem?-none : (rs : List A) (i : ℕ) → get_elem? rs i ≡ none → length rs ≤ i
  get_elem?-none [] i e = omega arith
  get_elem?-none (x ∷ rs) zero e = absurd (cc)
  get_elem?-none (x ∷ rs) (suc i) e = omega (arith, get_elem?-none rs i e)

  -- The loop that closes the gap at index `k`, whether it reads at `i` or at `i + 1`.
  shift_down-erase :
      (ok : ℕ → Bool) (n i ahead k : ℕ) (rs : List A)
      → ((m : ℕ) → ok m ≡ true)
      → i + ahead ≡ suc k
      → k < length rs
      → length rs ≤ suc k + n
      → take (length rs - 1) (shift_down ok n i ahead rs) ≡ erase_idx rs k
  unfolding shift_down
  shift_down-erase ok zero i ahead k rs all e h f = take_erase_last rs k (omega arith)
  shift_down-erase ok (suc n) i ahead k rs all e h f = elim (Option-cases (get_elem? rs (suc k))) [
    | inl none_left ↦
        let q : get_elem? rs (i + ahead) ≡ none = ap (get_elem? rs) e ∙ none_left in
        rw (q, shift_down)
          (take_erase_last rs k (omega (arith, get_elem?-none rs (suc k) none_left)))
    | inr (r, p) ↦
        let q : get_elem? rs (i + ahead) ≡ some r = ap (get_elem? rs) e ∙ p in
        let b : i + ahead - 1 ≡ k = omega arith in
        let rest =
          shift_down-erase ok n (i + 1) ahead (suc k) (set rs k r) all (omega arith)
            (omega (arith, get_elem?-lt rs (suc k) r p, length-set rs k r))
            (omega (arith, length-set rs k r)) in
        rw (q, shift_down, all i, b, ← length-set rs k r) (rest ∙ erase_idx-set rs k r p)
  ]

  -- Entry `ent` holds a record that passes the check, and every write succeeds: that record is
  -- removed, and all others keep their order.
  pub delete_entry_named :
      (os : Os) (check : A → Bool) (i : ℕ) (rs : List A) (r : A)
      → ((m : ℕ) → os.write_ok m ≡ true)
      → get_elem? rs i ≡ some r
      → check r ≡ true
      → delete_entry os check (suc i) rs ≡ (erase_idx rs i, done)
  unfolding delete_entry close_gap read_at
  delete_entry_named os check i rs r w g c =
      let h = get_elem?-lt rs i r g in
      rw (g, delete_entry, c)
        (ap (λ (l : List A). (l, done))
          (shift_down-erase os.write_ok (length rs - suc i) (suc i) 0 i rs w (omega arith) h
            (omega arith)))

  -- The fallback search removes the wrong record. Where entry `ent` cannot be read, and the first
  -- record that passes the check is not the last of the file, the record behind it is removed, and
  -- the one that was meant stays.
  pub delete_entry_skips :
      (os : Os) (check : A → Bool) (i ent : ℕ) (rs : List A)
      → ((m : ℕ) → os.write_ok m ≡ true)
      → read_at rs ent ≡ none
      → find_first check rs ≡ some i
      → i + 1 < length rs
      → delete_entry os check ent rs ≡ (erase_idx rs (i + 1), done)
  unfolding delete_entry delete_search close_gap_found
  delete_entry_skips os check i ent rs w n p h =
      rw (n, delete_entry, p, delete_search)
        (ap (λ (l : List A). (l, done))
          (shift_down-erase os.write_ok (length rs - (i + 1)) (i + 1) 1 (i + 1) rs w (omega arith) h
            (omega arith)))
