-- ===== src/Base/Maps.antt =====
-- Finite maps as functions, searches and counts over an array's indices.
use Prim.Native.Nat.{ℕ, zero, suc, ◌+◌, ◌≤◌, ◌<◌}
use mathlib.Core.Path.{◌≡◌, refl}
use mathlib.Core.Logic.{◌≢◌, inl, inr}
use mathlib.Core.Bool.{Bool, true, false}
use mathlib.Core.Option.{Option, none, some}
use native.Mathlib.Omega.{arith}
use firebird_bbs.Base.Tests.{◌==◌, ==_iff, if◌then◌else◌, Bool-cases}

unfoldable pub update {ℓ} : {A : Type ℓ} → (ℕ → A) → ℕ → A → ℕ → A
update f i v j = if j == i then v else f j

module _ {ℓ} {A : Type ℓ} where
  pub update_self : (f : ℕ → A) (i : ℕ) (v : A) → update f i v i ≡ v
  unfolding update
  update_self f i v = ground arith

  pub update_ne : (f : ℕ → A) (i : ℕ) (v : A) (j : ℕ) → j ≢ i → update f i v j ≡ f j
  unfolding update
  update_ne f i v j h = ground arith

-- The first index from `i` on, in `n` rounds, that passes the test.
unfoldable pub first_from : ℕ → ℕ → (ℕ → Bool) → Option ℕ
first_from zero i p = none
first_from (suc n) i p = let rest = first_from n (i + 1) p in if p i then some i else rest

pub first_from_sound :
    (n i : ℕ) (p : ℕ → Bool) (k : ℕ)
    → first_from n i p ≡ some k
    → (p k ≡ true) × (i ≤ k) × (k < i + n)
unfolding first_from
first_from_sound zero i p k e = cc
first_from_sound (suc n) i p k e = ground (arith, first_from_sound n (i + 1) p k)

pub first_from-none :
    (n i : ℕ) (p : ℕ → Bool) (k : ℕ) → first_from n i p ≡ none → i ≤ k → k < i + n → p k ≡ false
unfolding first_from
first_from-none zero i p k e h l = absurd (omega arith)
first_from-none (suc n) i p k e h l = elim (Bool-cases (k == i)) [
  | inl here ↦ let q : k ≡ i = (==_iff k i).0 here in rw q (ground arith)
  | inr away ↦ ground (arith, first_from-none n (i + 1) p k)
]

-- How many indices below `n` pass the test.
unfoldable pub count_below : ℕ → (ℕ → Bool) → ℕ
count_below zero p = 0
count_below (suc n) p = (if p n then 1 else 0) + count_below n p

pub count_below_same :
    (n : ℕ) (p q : ℕ → Bool) → ((i : ℕ) → i < n → p i ≡ q i) → count_below n p ≡ count_below n q
unfolding count_below
count_below_same zero p q h = refl
count_below_same (suc n) p q h =
    rw (h n (omega arith), count_below_same n p q (λ i l. h i (omega arith)))

-- Two tests that agree but at index `k`.
pub count_below_change :
    (n k : ℕ) (p q : ℕ → Bool)
    → k < n
    → ((i : ℕ) → i ≢ k → p i ≡ q i)
    → count_below n p + (if q k then 1 else 0) ≡ count_below n q + (if p k then 1 else 0)
unfolding count_below
count_below_change zero k p q l h = absurd (omega arith)
count_below_change (suc n) k p q l h = elim (Bool-cases (n == k)) [
  | inl here ↦
      let e : n ≡ k = (==_iff n k).0 here in
      let same = count_below_same n p q (λ i b. h i (λ x. absurd (omega arith))) in
      rw (← e) (omega (arith, same))
  | inr away ↦
      let ne : n ≢ k = ground arith in
      rw (h n ne) (omega (arith, count_below_change n k p q (omega arith) h))
]

pub count_below_pos : (n k : ℕ) (p : ℕ → Bool) → k < n → p k ≡ true → 0 < count_below n p
unfolding count_below
count_below_pos zero k p l h = absurd (omega arith)
count_below_pos (suc n) k p l h = elim (Bool-cases (n == k)) [
  | inl here ↦ let e : n ≡ k = (==_iff n k).0 here in rw (e, h) (omega arith)
  | inr away ↦ let ne : n ≢ k = ground arith in omega (arith, count_below_pos n k p (omega arith) h)
]
