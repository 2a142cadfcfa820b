-- ===== src/Cursor/Kept.antt =====
-- The list of kept cursors of bbssrc/src/read.c.
use firebird_bbs.Base.Text.{Bytes, bytes_eq, bytes_eq_refl, bytes_eq_sound}
use firebird_bbs.Base.{
  ℕ, ◌≤◌, ◌≡◌, refl, sym, ap, ◌∙◌, true, false, Option, none, some, List, [], ◌∷◌, if◌then◌else◌,
  arith, Bool-cases, inl, inr,
}
use firebird_bbs.Cursor.{
  Keeploc, at_least_one, find_keep, is_kept, getkeep, fix_entry, change_keep, fixkeep,
}

-- The first entry with a key.
abbrev pub kept : Bytes → List Keeploc → Option Keeploc
kept s [] = none
kept s (p ∷ ps) = if bytes_eq s p.key then some p else kept s ps

kept-find_keep :
    (s : Bytes) (l : List Keeploc)
    → is_kept s l ≡ true
    → (k : Keeploc) × (kept s (find_keep s l) ≡ some k) × (1 ≤ k.crs_line)
unfolding find_keep is_kept
kept-find_keep s [] h = absurd (cc)
kept-find_keep s (p ∷ ps) h = elim (Bool-cases (bytes_eq s p.key)) [
  | inl e ↦ rw e (at_least_one p, ground arith, ground arith)
  | inr e ↦ rw (e, e) (kept-find_keep s ps (rw (e, is_kept) at h))
]

-- Whatever is kept, after `getkeep` with a default cursor line of at least 1 there is an entry with
-- the key, and its cursor is at line 1 or further.
pub kept-getkeep :
    (s : Bytes) (top crs : ℕ) (l : List Keeploc)
    → 1 ≤ crs
    → (k : Keeploc) × (kept s (getkeep s top crs l) ≡ some k) × (1 ≤ k.crs_line)
unfolding getkeep
kept-getkeep s top crs l h = elim (Bool-cases (is_kept s l)) [
  | inl e ↦ rw e (kept-find_keep s l e)
  | inr e ↦ rw (e, bytes_eq_refl s) (record { key = s; top_line = top; crs_line = crs }, refl, h)
]

bytes_eq_swap : (s t : Bytes) → bytes_eq s t ≡ false → bytes_eq t s ≡ false
bytes_eq_swap s t h = elim (Bool-cases (bytes_eq t s)) [
  | inr e ↦ e
  | inl e ↦
      let same = bytes_eq_sound t s e in
      let self : bytes_eq s t ≡ true = ap (bytes_eq s) same ∙ bytes_eq_refl s in
      absurd (ground arith)
]

change_keep_other :
    (s other : Bytes) (f : Keeploc → Keeploc) (l : List Keeploc)
    → bytes_eq s other ≡ false
    → ((k : Keeploc) → (f k).key ≡ k.key)
    → kept other (change_keep s f l) ≡ kept other l
unfolding change_keep
change_keep_other s other f [] h keys = refl
change_keep_other s other f (p ∷ ps) h keys = elim (Bool-cases (bytes_eq s p.key)) [
  | inl e ↦
      let same = bytes_eq_sound s p.key e in
      let away : bytes_eq other p.key ≡ false =
        ap (bytes_eq other) (sym same) ∙ bytes_eq_swap s other h in
      rw (e, keys p, away) refl
  | inr e ↦ rw (e, change_keep_other s other f ps h keys) refl
]

find_keep-change_keep :
    (s : Bytes) (l : List Keeploc) → find_keep s l ≡ change_keep s at_least_one l
unfolding find_keep change_keep
find_keep-change_keep s [] = refl
find_keep-change_keep s (p ∷ ps) = rw (find_keep-change_keep s ps) refl

at_least_one_key : (k : Keeploc) → (at_least_one k).key ≡ k.key
at_least_one_key k = ground arith

fix_entry_key : (first : ℕ) (k : Keeploc) → (fix_entry first k).key ≡ k.key
unfolding fix_entry
fix_entry_key first k = ground arith

getkeep_other :
    (s other : Bytes) (top crs : ℕ) (l : List Keeploc)
    → bytes_eq s other ≡ false
    → kept other (getkeep s top crs l) ≡ kept other l
unfolding getkeep
getkeep_other s other top crs l h = elim (Bool-cases (is_kept s l)) [
  | inl e ↦
      rw (e, find_keep-change_keep s l)
        (change_keep_other s other at_least_one l h at_least_one_key)
  | inr e ↦ rw (e, bytes_eq_swap s other h) refl
]

-- `getkeep` and `fixkeep` for one index file leave the cursors of all other files alone.
pub fixkeep_other :
    (s other : Bytes) (top crs first : ℕ) (l : List Keeploc)
    → bytes_eq s other ≡ false
    → (kept other (getkeep s top crs l) ≡ kept other l)
      × (kept other (fixkeep s first l) ≡ kept other l)
unfolding fixkeep
fixkeep_other s other top crs first l h = (
  getkeep_other s other top crs l h,
  change_keep_other s other (fix_entry first) (getkeep s 1 1 l) h (fix_entry_key first)
      ∙ getkeep_other s other 1 1 l h,
)
