-- ===== src/Screen/Turning.antt =====
-- The lines of the screen of bbssrc/src/screen.c when `scroll` or `rscroll` rolls them.
use firebird_bbs.Base.{
  not, ℕ, zero, suc, ◌+◌, ◌-◌, ◌≤◌, ◌<◌, ◌≡◌, refl, ap, ◌∙◌, true, false, ◌||◌, ltb, ◌==◌,
  if◌then◌else◌, arith, Bool-cases, inl, inr,
}
use firebird_bbs.Screen.{Count, pos, negsuc, inc, dec}
use firebird_bbs.Screen.Refresh.{is_back, size}
use firebird_bbs.Screen.Scrolling.{will, source_of}

-- A line of the screen, counted from the one that is next below or above it, the last and the first
-- in turn.
abbrev pub below : ℕ → ℕ → ℕ
below n a = if a == n - 1 then 0 else a + 1

abbrev pub above : ℕ → ℕ → ℕ
above n a = if a == 0 then n - 1 else a - 1

-- One line more to go up.
pub source_of-inc :
    (n : ℕ) (count : Count) (a : ℕ)
    → size count ≤ n
    → size (inc count) ≤ n
    → a < n
    → source_of n count (below n a) ≡ source_of n (inc count) a
unfolding inc size
source_of-inc n (pos m) a h l inside = ground arith
source_of-inc n (negsuc zero) a h l inside = ground arith
source_of-inc n (negsuc (suc m)) a h l inside = ground arith

pub will-inc :
    (n : ℕ) (count : Count) (f g : ℕ → ℕ → ℕ) (a k w : ℕ)
    → size count ≤ n
    → size (inc count) ≤ n
    → ((b j : ℕ) → b < n → g b j ≡ will n count f b j)
    → w ≡ f (source_of n count 0) k
    → a < n
    → (if a == n - 1 then (if is_back count then w else b' ') else g (below n a) k)
      ≡ will n (inc count) f a k
unfolding inc is_back size
will-inc n (pos m) f g a k w h l told enter inside = elim (Bool-cases (a == n - 1)) [
  | inl last ↦ let out : ltb (a + (m + 1)) n ≡ false = ground arith in rw (last, out) refl
  | inr more ↦
      let same : a + 1 + m ≡ a + (m + 1) = omega arith in
      rw more (told (a + 1) k (ground arith) ∙ ap (λ x. if ltb x n then f x k else b' ') same)
]
will-inc n (negsuc zero) f g a k w h l told enter inside = elim (Bool-cases (a == n - 1)) [
  | inl last ↦
      let out : ltb (a + 0) n ≡ true = ground arith in
      rw (last, out) (enter ∙ ap (λ x. f x k) (ground arith))
  | inr more ↦
      let up : ltb 0 (a + 1) ≡ true = ground arith in
      let out : ltb (a + 0) n ≡ true = ground arith in
      rw (more, out) (told (a + 1) k (ground arith) ∙ rw up (ap (λ x. f x k) (omega arith)))
]
will-inc n (negsuc (suc m)) f g a k w h l told enter inside = elim (Bool-cases (a == n - 1)) [
  | inl last ↦
      let up : ltb m a ≡ true = ground arith in
      rw (last, up) (enter ∙ ap (λ x. f x k) (ground arith))
  | inr more ↦ elim (Bool-cases (ltb m a)) [
    | inl up ↦
        let up1 : ltb (suc m) (a + 1) ≡ true = ground arith in
        rw (more, up) (told (a + 1) k (ground arith) ∙ rw up1 (ap (λ x. f x k) (omega arith)))
    | inr out ↦
        let out1 : ltb (suc m) (a + 1) ≡ false = ground arith in
        rw (more, out) (told (a + 1) k (ground arith) ∙ rw out1 refl)
  ]
]

-- One line more to go down.
pub source_of-dec :
    (n : ℕ) (count : Count) (a : ℕ)
    → size count ≤ n
    → size (dec count) ≤ n
    → a < n
    → source_of n count (above n a) ≡ source_of n (dec count) a
unfolding dec size
source_of-dec n (pos zero) a h l inside = ground arith
source_of-dec n (pos (suc m)) a h l inside = ground arith
source_of-dec n (negsuc m) a h l inside = ground arith

pub will-dec :
    (n : ℕ) (count : Count) (f g : ℕ → ℕ → ℕ) (a k w : ℕ)
    → size count ≤ n
    → size (dec count) ≤ n
    → ((b j : ℕ) → b < n → g b j ≡ will n count f b j)
    → w ≡ f (source_of n count (n - 1)) k
    → a < n
    → (if a == 0
        then (if not (is_back count || size count == 0) then w else b' ')
        else g (above n a) k)
      ≡ will n (dec count) f a k
unfolding dec is_back size
will-dec n (pos zero) f g a k w h l told enter inside = elim (Bool-cases (a == 0)) [
  | inl first ↦ let out : ltb 0 a ≡ false = ground arith in rw (first, out) refl
  | inr more ↦
      let up : ltb 0 a ≡ true = ground arith in
      let within : ltb (a - 1 + 0) n ≡ true = ground arith in
      rw (more, up) (told (a - 1) k (omega arith) ∙ rw within (ap (λ x. f x k) (omega arith)))
]
will-dec n (pos (suc m)) f g a k w h l told enter inside =
    let some_size : (suc m == 0) ≡ false = ground arith in
    elim (Bool-cases (a == 0)) [
      | inl first ↦
          let within : ltb (a + m) n ≡ true = ground arith in
          rw (first, within, some_size) (enter ∙ ap (λ x. f x k) (ground arith))
      | inr more ↦
          let same : a - 1 + suc m ≡ a + m = ground arith in
          rw more (told (a - 1) k (omega arith) ∙ ap (λ x. if ltb x n then f x k else b' ') same)
    ]
will-dec n (negsuc m) f g a k w h l told enter inside = elim (Bool-cases (a == 0)) [
  | inl first ↦ let out : ltb (m + 1) a ≡ false = ground arith in rw (first, out) refl
  | inr more ↦ elim (Bool-cases (ltb (m + 1) a)) [
    | inl up ↦
        let up1 : ltb m (a - 1) ≡ true = ground arith in
        rw (more, up) (told (a - 1) k (omega arith) ∙ rw up1 (ap (λ x. f x k) (omega arith)))
    | inr out ↦
        let out1 : ltb m (a - 1) ≡ false = ground arith in
        rw (more, out) (told (a - 1) k (omega arith) ∙ rw out1 refl)
  ]
]
