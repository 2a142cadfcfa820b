-- ===== src/Screen/Printing.antt =====
-- What `prints` of bbssrc/src/screen.c makes of its numbers.
use native.Mathlib.Nat.{mul-suc, mul_comm, mul-add, mul_assoc}
use firebird_bbs.Base.Text.{Bytes, digits_from, atoi}
use firebird_bbs.Base.{
  ℕ, zero, suc, ◌+◌, ◌-◌, ◌*◌, ◌≤◌, ◌<◌, ◌≡◌, refl, sym, ap, ◌∙◌, subst, Bool, true, false, ◌&&◌,
  not, List, [], ◌∷◌, ◌++◌, length, length-append, leb, ◌==◌, ==_iff, if◌then◌else◌, max, arith,
  Bool-cases, inl, inr,
}
use firebird_bbs.Screen.Format.{
  dec_table, spaces, take_off, number_digits, digit_count, number_len, print_number,
}

-- The smallest number that is too large for a table, and a table in which each entry is ten of the next.
abbrev weight : List ℕ → ℕ
weight [] = 1
weight (d ∷ ds) = 10 * d

abbrev Table : List ℕ → Type 0
Table [] = true ≡ true
Table (d ∷ ds) = (d ≡ weight ds) × Table ds

dec_table-Table : Table dec_table
dec_table-Table =
    (refl, (refl, (refl, (refl, (refl, (refl, (refl, (refl, (refl, (refl, refl))))))))))

suc_mul : (c d : ℕ) → suc c * d ≡ c * d + d
suc_mul c d = mul_comm (suc c) d ∙ mul-suc d c ∙ ap (λ x. x + d) (mul_comm d c)

one_more : (c d : ℕ) → (c + 1) * d ≡ c * d + d
one_more c d = ap (λ x. x * d) (omega arith) ∙ suc_mul c d

take_off_sum : (fuel i d c : ℕ) → (take_off fuel i d c).0 * d + (take_off fuel i d c).1 ≡ c * d + i
unfolding take_off
take_off_sum zero i d c = refl
take_off_sum (suc fuel) i d c = elim (Bool-cases (leb d i)) [
  | inr e ↦ rw e refl
  | inl e ↦
      let h = take_off_sum fuel (i - d) d (c + 1) in
      let m = one_more c d in rw e (h ∙ ap (λ x. x + (i - d)) m ∙ ground arith)
]

take_off_small :
    (fuel i d c : ℕ)
    → i < fuel * d
    → ((take_off fuel i d c).1 < d) × ((take_off fuel i d c).0 < c + fuel)
unfolding take_off
take_off_small zero i d c h = absurd (omega (arith, h))
take_off_small (suc fuel) i d c h = elim (Bool-cases (leb d i)) [
  | inr e ↦ rw e (ground arith, omega arith)
  | inl e ↦
      let m = suc_mul fuel d in
      let le : d ≤ i = ground arith in
      let (a, b) = take_off_small fuel (i - d) d (c + 1) (omega (arith, h, m, le)) in
      rw e (a, omega arith)
]

next_digit : (v n w r i : ℕ) → n * w + r ≡ i → (v * 10 + n) * w + r ≡ v * (10 * w) + i
next_digit v n w r i h =
    let a : (v * 10 + n) * w ≡ w * (v * 10) + w * n =
      mul_comm (v * 10 + n) w ∙ mul-add w (v * 10) n in
    omega (arith, a, mul_comm w (v * 10), mul_comm w n, mul_assoc v 10 w, h)

digit : (c : ℕ) → c < 10 → (leb b'0' (b'0' + c) && leb (b'0' + c) b'9') ≡ true
digit c h = ground arith

skipped : (hd c : Bool) (n : ℕ) → (hd && c && n == 0) ≡ true → (hd ≡ true) × (n ≡ 0)
skipped hd c n h = (ground arith, ground arith)

-- The digits of a number, read on behind the value `v`.
number_digits_value :
    (ds : List ℕ) (hd : Bool) (i v : ℕ)
    → Table ds
    → i < weight ds
    → (hd ≡ true → v ≡ 0)
    → digits_from v (number_digits ds hd i) ≡ v * weight ds + i
unfolding number_digits digits_from
number_digits_value [] hd i v t h z = omega arith
number_digits_value (d ∷ ds) hd i v (e, t) h z =
    let r = take_off 10 i d 0 in
    let sum = take_off_sum 10 i d 0 in
    let (small, few) = take_off_small 10 i d 0 h in
    let small1 : r.1 < weight ds = subst (λ x. r.1 < x) e small in
    elim (Bool-cases (hd && not (length ds == 0) && r.0 == 0)) [
      | inl skip ↦
          let (headed, none_off) = skipped hd (not (length ds == 0)) r.0 skip in
          let ih = number_digits_value ds true r.1 v t small1 (λ q. z headed) in
          rw skip (
            ih
            ∙ (let vz : v ≡ 0 = z headed in
                let nz : 0 ≡ r.0 = sym none_off in
                let q : 0 * d + r.1 ≡ 0 * d + i = ap (λ x. x * d + r.1) nz ∙ sum in
                ap (λ x. x * weight ds + r.1) vz
                ∙ omega (arith, q)
                ∙ sym (ap (λ x. x * (10 * d) + i) vz)))
      | inr put ↦
          let ih =
            number_digits_value ds false r.1 (v * 10 + (b'0' + r.0 - b'0')) t small1
              (λ q. absurd cc) in
          rw (put, digit r.0 few)
            (ih
              ∙ subst (λ w. (v * 10 + (b'0' + r.0 - b'0')) * w + r.1 ≡ v * (10 * d) + i) e
                  (next_digit v (b'0' + r.0 - b'0') d r.1 i
                    (ap (λ x. x * d + r.1) (omega arith) ∙ sum ∙ omega arith)))
    ]

-- The digits that `prints` makes of a number of ten digits at most are read back by `atoi` as that
-- number.
pub atoi-number_digits : (i : ℕ) → i < 10000000000 → atoi (number_digits dec_table true i) ≡ i
unfolding atoi
atoi-number_digits i h =
    number_digits_value dec_table true i 0 dec_table-Table h (λ e. refl) ∙ omega arith

take_off_more : (fuel i d c : ℕ) → c ≤ (take_off fuel i d c).0
unfolding take_off
take_off_more zero i d c = omega arith
take_off_more (suc fuel) i d c = elim (Bool-cases (leb d i)) [
  | inl e ↦ let h = take_off_more fuel (i - d) d (c + 1) in rw e (omega arith)
  | inr e ↦ rw e (omega arith)
]

number_digits-length_all : (ds : List ℕ) (i : ℕ) → length (number_digits ds false i) ≡ length ds
unfolding number_digits
number_digits-length_all [] i = refl
number_digits-length_all (d ∷ ds) i = ap suc (number_digits-length_all ds (take_off 10 i d 0).1)

take_off_none : (fuel i d c : ℕ) → leb d i ≡ false → take_off (suc fuel) i d c ≡ (c, i)
unfolding take_off
take_off_none fuel i d c e = rw e refl

put_first : (a : Bool) (n : ℕ) → 1 ≤ n → (a && n == 0) ≡ false
put_first a n h = ground arith

-- The first entry that is not above the number gives the first digit.
number_digits-length_here :
    (d : ℕ) (ds : List ℕ) (i : ℕ)
    → leb d i ≡ true
    → length (number_digits (d ∷ ds) true i) ≡ max 1 (digit_count (d ∷ ds) i)
unfolding number_digits digit_count
number_digits-length_here d ds i e =
    let m : 1 ≤ (take_off 10 i d 0).0 = unfold take_off in rw e (take_off_more 9 (i - d) d 1) in
    let c = put_first (not (length ds == 0)) (take_off 10 i d 0).0 m in
    rw (c, e) (omega (arith, number_digits-length_all ds (take_off 10 i d 0).1))

number_digits-length :
    (d : ℕ) (ds : List ℕ) (i : ℕ)
    → length (number_digits (d ∷ ds) true i) ≡ max 1 (digit_count (d ∷ ds) i)
unfolding number_digits digit_count
number_digits-length d [] i = elim (Bool-cases (leb d i)) [
  | inl e ↦ number_digits-length_here d [] i e
  | inr e ↦ rw e refl
]
number_digits-length d (d1 ∷ ds) i = elim (Bool-cases (leb d i)) [
  | inl e ↦ number_digits-length_here d (d1 ∷ ds) i e
  | inr e ↦
      let c : (length (d1 ∷ ds) == 0) ≡ false = ground arith in
      rw (e, take_off_none 9 i d 0 e, c) (number_digits-length d1 ds i)
]

digit_count_some :
    (d : ℕ) (ds : List ℕ) (i : ℕ) → Table (d ∷ ds) → 1 ≤ i → 1 ≤ digit_count (d ∷ ds) i
unfolding digit_count
digit_count_some d [] i (q, u) h = let e : leb d i ≡ true = ground arith in rw e (omega arith)
digit_count_some d (d1 ∷ ds) i (q, u) h = elim (Bool-cases (leb d i)) [
  | inl e ↦ rw e (omega arith)
  | inr e ↦ rw e (digit_count_some d1 ds i u h)
]

pub length-spaces : (n : ℕ) → length (spaces n) ≡ n
unfolding spaces
length-spaces zero = refl
length-spaces (suc n) = ap suc (length-spaces n)

length-spaces_if : (b : Bool) (n : ℕ) → length (if b then spaces n else []) ≡ (if b then n else 0)
length-spaces_if true n = length-spaces n
length-spaces_if false n = refl

abbrev minus : Bool → Bytes
minus negi = if negi then b'-' ∷ [] else []

length-sign_if : (negi : Bool) → length (minus negi) ≡ (if negi then 1 else 0)
length-sign_if true = refl
length-sign_if false = refl

number_len_digits :
    (negi : Bool) (i : ℕ)
    → number_len negi i ≡ length (number_digits dec_table true i) + (if negi then 1 else 0)
unfolding number_len
number_len_digits negi i =
    let n =
      number_digits-length 1000000000
        (100000000 ∷ 10000000 ∷ 1000000 ∷ 100000 ∷ 10000 ∷ 1000 ∷ 100 ∷ 10 ∷ 1 ∷ []) i in
    ap (λ x. x + (if negi then 1 else 0))
      (elim (Bool-cases (i == 0)) [
        | inl e ↦ let q : i ≡ 0 = (==_iff i 0).0 e in rw q (unfold number_digits take_off in refl)
        | inr e ↦
            let m =
              digit_count_some 1000000000
                (100000000 ∷ 10000000 ∷ 1000000 ∷ 100000 ∷ 10000 ∷ 1000 ∷ 100 ∷ 10 ∷ 1 ∷ []) i
                dec_table-Table (ground arith) in
            rw e (omega (arith, n, m))
      ])

padded :
    (val len n : ℕ) (right negi : Bool)
    → len ≡ n + (if negi then 1 else 0)
    → (if leb len val && right then val - len else 0)
        + ((if negi then 1 else 0) + (n + (if leb len val && not right then val - len else 0)))
      ≡ max val len
padded val len n right negi h = ground arith

length-four :
    (a b c d : Bytes) → length (a ++ b ++ c ++ d) ≡ length a + (length b + (length c + length d))
length-four a b c d =
    omega (arith, length-append (a ++ b ++ c) d, length-append (a ++ b) c, length-append a b)

-- `%Nd`: a number takes the columns that it needs, and `N` if these are more.
pub print_number-length :
    (right : Bool) (val : ℕ) (negi : Bool) (i : ℕ)
    → length (print_number right val negi i) ≡ max val (number_len negi i)
unfolding print_number
print_number-length right val negi i =
    let len = number_len negi i in
    let digits = number_digits dec_table true i in
    let sign = minus negi in
    let left = if leb len val && right then spaces (val - len) else [] in
    let behind = if leb len val && not right then spaces (val - len) else [] in
    length-four left sign digits behind
    ∙ ap (λ x. x + (length sign + (length digits + length behind)))
        (length-spaces_if (leb len val && right) (val - len))
    ∙ ap
        (λ x.
          (if leb len val && right then val - len else 0) + (x + (length digits + length behind)))
        (length-sign_if negi)
    ∙ ap
        (λ x.
          (if leb len val && right then val - len else 0)
          + ((if negi then 1 else 0) + (length digits + x)))
        (length-spaces_if (leb len val && not right) (val - len))
    ∙ padded val len (length digits) right negi (number_len_digits negi i)
