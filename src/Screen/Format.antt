-- ===== src/Screen/Format.antt =====
-- `prints` and `outns` of bbssrc/src/screen.c: the bytes that a format and its arguments pass to `outc`. A
-- string is its bytes without the zero; what would read memory behind that zero is `none`, as is a
-- missing argument.
use firebird_bbs.Base.Text.{Bytes}
use firebird_bbs.Base.{
  ℕ, zero, suc, ◌+◌, ◌-◌, ◌*◌, ◌%◌, Bool, true, false, ◌&&◌, ◌||◌, not, List, [], ◌∷◌, ◌++◌, length,
  take, ◌>>=◌, Option, some, none, leb, ◌==◌, if◌then◌else◌,
}
use firebird_bbs.Screen.{Screen, Setup, outs}

-- An argument: a string, which may be NULL, or an `int` by its sign and size, below 2 ^ 31.
pub data Arg : Type 0 where
  str : Option Bytes → Arg
  num : Bool → ℕ → Arg

abbrev pub dec_table : List ℕ
dec_table = 1000000000 ∷ 100000000 ∷ 10000000 ∷ 1000000 ∷ 100000 ∷ 10000 ∷ 1000 ∷ 100 ∷ 10 ∷ 1 ∷ []

abbrev pub nullstr : Bytes
nullstr = b'(' ∷ b'n' ∷ b'u' ∷ b'l' ∷ b'l' ∷ b')' ∷ []

unfoldable pub spaces : ℕ → Bytes
spaces zero = []
spaces (suc n) = b' ' ∷ spaces n

abbrev pub is_alpha : ℕ → Bool
is_alpha c = leb b'A' c && leb c b'Z' || leb b'a' c && leb c b'z'

-- The bytes of colour sequences among the first `k` bytes of a string.
unfoldable pub colour_bytes : ℕ → Bool → Bytes → ℕ
colour_bytes zero lock foo = 0
colour_bytes (suc k) lock [] = 0
colour_bytes (suc k) lock (c ∷ foo) =
    let opens = c == 27 && not lock in
    let closes = is_alpha c && lock in
    let rest = colour_bytes k (opens || lock && not closes) foo in
    if opens || lock then rest + 1 else rest

-- `for (; n > 0; n--) outc(*str++);`, of a string with the zero behind it.
unfoldable pub first_bytes : ℕ → Bytes → Option Bytes
first_bytes n s = if leb n (length s + 1) then some (take n (s ++ 0 ∷ [])) else none

unfoldable pub outns : Bytes → ℕ → Bool → Option Bytes
outns s n cc = if not cc then first_bytes n s else do
  bytes ← first_bytes (n + colour_bytes n false (s ++ 0 ∷ [])) s
  some (bytes ++ 27 ∷ b'[' ∷ b'm' ∷ [])

-- `while (i >= dec[indx]) { count++; i -= dec[indx]; }`
unfoldable pub take_off : ℕ → ℕ → ℕ → ℕ → ℕ × ℕ
take_off zero i d count = (count, i)
take_off (suc fuel) i d count =
    let rest = take_off fuel (i - d) d (count + 1) in if leb d i then rest else (count, i)

unfoldable pub number_digits : List ℕ → Bool → ℕ → Bytes
number_digits [] hd i = []
number_digits (d ∷ ds) hd i =
    let r = take_off 10 i d 0 in
    let hd1 = hd && not (length ds == 0) && r.0 == 0 in
    let next = number_digits ds hd1 r.1 in if hd1 then next else (b'0' + r.0) ∷ next

-- How many entries of the table are left at the first that is not above `i`.
unfoldable pub digit_count : List ℕ → ℕ → ℕ
digit_count [] i = 0
digit_count (d ∷ ds) i = let rest = digit_count ds i in if leb d i then length (d ∷ ds) else rest

unfoldable pub number_len : Bool → ℕ → ℕ
number_len negi i = (if i == 0 then 1 else digit_count dec_table i) + (if negi then 1 else 0)

unfoldable pub print_number : Bool → ℕ → Bool → ℕ → Bytes
print_number right val negi i =
    let len = number_len negi i in
    (if leb len val && right then spaces (val - len) else [])
    ++ (if negi then b'-' ∷ [] else [])
    ++ number_digits dec_table true i
    ++ (if leb len val && not right then spaces (val - len) else [])

unfoldable pub or_null : Option Bytes → Bytes
or_null none = nullstr
or_null (some bp) = bp

unfoldable pub print_string : Bool → Bool → ℕ → Bytes → Option Bytes
print_string right sgn2 val bp =
    if val == 0
    then some bp
    else if not sgn2
    then outns bp (if leb val (length bp) then val else length bp) true
    else if leb val (length bp)
    then outns bp val false
    else if right
    then some (spaces (val - length bp) ++ bp)
    else some (bp ++ spaces (val - length bp))

-- `while (*fmt == '-') { sgn *= -1; fmt++; }`
unfoldable pub read_signs : Bool → Bytes → Bool × Bytes
read_signs sgn [] = (sgn, [])
read_signs sgn (c ∷ fmt) =
    let rest = read_signs (not sgn) fmt in if c == b'-' then rest else (sgn, c ∷ fmt)

-- `while (isdigit(*fmt)) { val *= 10; val += *fmt - '0'; fmt++; }`
unfoldable pub read_val : ℕ → Bytes → ℕ × Bytes
read_val val [] = (val, [])
read_val val (c ∷ fmt) =
    let rest = read_val (val * 10 + (c - b'0')) fmt in
    if leb b'0' c && leb c b'9' then rest else (val, c ∷ fmt)

-- Behind a `%`: `sgn`, `sgn2`, `val` and what is left of the format.
unfoldable pub read_field : Bytes → Bool × Bool × ℕ × Bytes
read_field [] = (true, true, 0, [])
read_field (c ∷ fmt) =
    let (sgn, unsigned) = read_signs true (c ∷ fmt) in
    let (val, rest) = read_val 0 (if c == b'.' then fmt else unsigned) in
    (sgn, not (c == b'.'), val, rest)

-- The byte that an `int` is cut down to.
unfoldable pub low_byte : Bool → ℕ → ℕ
low_byte negi i = if negi then (256 - i % 256) % 256 else i % 256

unfoldable pub convert_string : Bool → Bool → ℕ → Bytes → List Arg → Option (Bytes × List Arg)
convert_string right sgn2 val bp args = do
  bytes ← print_string right sgn2 val bp
  some (bytes, args)

-- The `switch` on the letter of a field, and the arguments that are left.
unfoldable pub convert : Bool → Bool → ℕ → ℕ → List Arg → Option (Bytes × List Arg)
convert right sgn2 val c [] =
    if c == b's' || c == b'd' || c == b'c' then none else some (c ∷ [], [])
convert right sgn2 val c (str s ∷ args) =
    if c == b's'
    then convert_string right sgn2 val (or_null s) args
    else if c == b'd' || c == b'c'
    then none
    else some (c ∷ [], str s ∷ args)
convert right sgn2 val c (num negi i ∷ args) =
    if c == b's'
    then none
    else if c == b'd'
    then some (print_number right val negi i, args)
    else if c == b'c'
    then some (low_byte negi i ∷ [], args)
    else some (c ∷ [], num negi i ∷ args)

unfoldable pub convert_field :
    Bool × Bool × ℕ × Bytes → List Arg → Option (Bytes × Bytes × List Arg)
convert_field (right, sgn2, val, []) args = some ([], [], args)
convert_field (right, sgn2, val, c ∷ fmt) args = do
  (bytes, more) ← convert right sgn2 val c args
  some (bytes, fmt, more)

-- One round of the loop over the format: what it passes to `outc`, and the format and the arguments
-- that are left.
unfoldable pub format_item : ℕ → Bytes → List Arg → Option (Bytes × Bytes × List Arg)
format_item c fmt args =
    if c == b'%' then convert_field (read_field fmt) args else some (c ∷ [], fmt, args)

-- The loop, on fuel.
unfoldable pub format : ℕ → Bytes → List Arg → Option Bytes
format zero fmt args = none
format (suc n) [] args = some []
format (suc n) (c ∷ fmt) args = do
  (bytes, left, more) ← format_item c fmt args
  out ← format n left more
  some (bytes ++ out)

unfoldable pub prints : Setup → Screen → Bytes → List Arg → Option Screen
prints t s fmt args = do bytes ← format (length fmt + 1) fmt args; some (outs t s bytes)
