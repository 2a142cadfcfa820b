-- ===== src/Screen/Columns.antt =====
-- What `prints` of bbssrc/src/screen.c makes of its strings, and its loop over the format.
use firebird_bbs.Base.Text.{Bytes}
use firebird_bbs.Base.{
  ℕ, zero, suc, ◌+◌, ◌-◌, ◌*◌, ◌≤◌, ◌<◌, ◌≡◌, refl, ap, ◌∙◌, Bool, true, false, ◌&&◌, not, List, [],
  ◌∷◌, ◌++◌, length, take, length-append, length-take, Option, some, none, leb, ◌==◌, if◌then◌else◌,
  arith, Bool-cases, inl, inr, ◌>>=◌,
}
use firebird_bbs.Screen.Format.{
  spaces, first_bytes, outns, print_string, Arg, read_signs, read_val, read_field, convert,
  convert_field, format_item, format,
}
use firebird_bbs.Screen.Printing.{length-spaces}

take-append_within : (n : ℕ) (s t : Bytes) → n ≤ length s → take n (s ++ t) ≡ take n s
take-append_within zero s t h = refl
take-append_within (suc n) [] t h = absurd (omega arith)
take-append_within (suc n) (c ∷ s) t h = ap (λ x. c ∷ x) (take-append_within n s t (omega arith))

-- A string cut to `val` bytes, or filled up to them with spaces.
abbrev pub column : Bool → ℕ → Bytes → Bytes
column right val bp =
    if leb val (length bp)
    then take val bp
    else if right
    then spaces (val - length bp) ++ bp
    else bp ++ spaces (val - length bp)

column-length : (right : Bool) (val : ℕ) (bp : Bytes) → length (column right val bp) ≡ val
column-length right val bp = elim (Bool-cases (leb val (length bp))) [
  | inl e ↦ rw e (length-take val bp ∙ ground arith)
  | inr e ↦ rw e (side right e)
]
  where
    side :
        (right : Bool)
        → leb val (length bp) ≡ false
        → length (if right then spaces (val - length bp) ++ bp else bp ++ spaces (val - length bp))
          ≡ val
    side true e =
        length-append (spaces (val - length bp)) bp
        ∙ ap (λ x. x + length bp) (length-spaces (val - length bp))
        ∙ ground arith
    side false e =
        length-append bp (spaces (val - length bp))
        ∙ ap (λ x. length bp + x) (length-spaces (val - length bp))
        ∙ ground arith

-- `%Ns` and `%-Ns`, for `N` above 0: a string takes `N` columns, cut or filled up with spaces in front
-- of it or behind it, and never reads memory behind its end.
pub print_string-column :
    (right : Bool) (val : ℕ) (bp : Bytes)
    → 0 < val
    → (print_string right true val bp ≡ some (column right val bp))
      × (length (column right val bp) ≡ val)
unfolding print_string outns first_bytes
print_string-column right val bp h =
    let e : (val == 0) ≡ false = ground arith in
    (
      elim (Bool-cases (leb val (length bp))) [
        | inl f ↦
            let g : leb val (length bp + 1) ≡ true = ground arith in
            rw (e, f, g) (ap some (take-append_within val bp (0 ∷ []) (ground arith)))
        | inr f ↦ rw (e, f) (side right)
      ],
      column-length right val bp,
    )
  where
    side :
        (right : Bool)
        → (if right
            then some (spaces (val - length bp) ++ bp)
            else some (bp ++ spaces (val - length bp)))
          ≡ some (if right then spaces (val - length bp) ++ bp else bp ++ spaces (val - length bp))
    side true = refl
    side false = refl

-- What is left of the format is no longer than what there was.
abbrev Within : ℕ → Option (Bytes × Bytes × List Arg) → Type 0
Within n none = true ≡ true
Within n (some (bytes, left, more)) = length left ≤ n

read_signs-length : (sgn : Bool) (fmt : Bytes) → length (read_signs sgn fmt).1 ≤ length fmt
unfolding read_signs
read_signs-length sgn [] = omega arith
read_signs-length sgn (c ∷ fmt) = elim (Bool-cases (c == b'-')) [
  | inl e ↦ let h = read_signs-length (not sgn) fmt in rw e (omega arith)
  | inr e ↦ rw e (omega arith)
]

read_val-length : (val : ℕ) (fmt : Bytes) → length (read_val val fmt).1 ≤ length fmt
unfolding read_val
read_val-length val [] = omega arith
read_val-length val (c ∷ fmt) = elim (Bool-cases (leb b'0' c && leb c b'9')) [
  | inl e ↦ let h = read_val-length (val * 10 + (c - b'0')) fmt in rw e (omega arith)
  | inr e ↦ rw e (omega arith)
]

read_field-length : (fmt : Bytes) → length (read_field fmt).3 ≤ length fmt
unfolding read_field
read_field-length [] = omega arith
read_field-length (c ∷ fmt) =
    let a = read_signs-length true (c ∷ fmt) in
    let s = if c == b'.' then fmt else (read_signs true (c ∷ fmt)).1 in
    let b = read_val-length 0 s in
    let d : length s ≤ length (c ∷ fmt) = elim (Bool-cases (c == b'.')) [
      | inl e ↦ rw e (omega arith)
      | inr e ↦ rw e a
    ] in
    omega (arith, b, d)

convert_field-Within :
    (n : ℕ) (f : Bool × Bool × ℕ × Bytes) (args : List Arg)
    → length f.3 ≤ n
    → Within n (convert_field f args)
unfolding convert_field
convert_field-Within n (right, sgn2, val, []) args h = omega arith
convert_field-Within n (right, sgn2, val, c ∷ fmt) args h = go (convert right sgn2 val c args)
  where
    go : (o : Option (Bytes × List Arg)) → Within n (o >>= (λ x. some (x.0, fmt, x.1)))
    go none = refl
    go (some (bytes, more)) = omega arith

format_item-Within :
    (c : ℕ) (fmt : Bytes) (args : List Arg) → Within (length fmt) (format_item c fmt args)
unfolding format_item
format_item-Within c fmt args = elim (Bool-cases (c == b'%')) [
  | inl e ↦ rw e (convert_field-Within (length fmt) (read_field fmt) args (read_field-length fmt))
  | inr e ↦ rw e (omega arith)
]

-- Each item takes its part of the format, so with any fuel above the length of the format the result is
-- the same.
pub format_enough :
    (n m : ℕ) (fmt : Bytes) (args : List Arg)
    → length fmt < n
    → length fmt < m
    → format n fmt args ≡ format m fmt args
unfolding format
format_enough zero m fmt args h l = absurd (omega (arith, h))
format_enough (suc n) zero fmt args h l = absurd (omega (arith, l))
format_enough (suc n) (suc m) [] args h l = refl
format_enough (suc n) (suc m) (c ∷ fmt) args h l =
    go (λ left more w. format_enough n m left more (omega (arith, w, h)) (omega (arith, w, l)))
      (format_item c fmt args) (format_item-Within c fmt args)
  where
    go :
        ((left : Bytes) (more : List Arg)
          → length left ≤ length fmt
          → format n left more ≡ format m left more)
        → (o : Option (Bytes × Bytes × List Arg)) → Within (length fmt) o
        → (o >>= (λ x. format n x.1 x.2 >>= (λ out. some (x.0 ++ out))))
          ≡ (o >>= (λ x. format m x.1 x.2 >>= (λ out. some (x.0 ++ out))))
    go same none w = refl
    go same (some (bytes, left, more)) w =
        ap (λ x. x >>= (λ out. some (bytes ++ out))) (same left more w)
