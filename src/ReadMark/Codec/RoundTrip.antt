-- ===== src/ReadMark/Codec/RoundTrip.antt =====
-- `brc_putrecord` and `brc_getrecord` of bbssrc/src/boards.c, one after the other.
use firebird_bbs.Base.Text.{Bytes}
use firebird_bbs.Base.{
  ℕ, zero, suc, ◌+◌, ◌*◌, ◌/◌, ◌%◌, min, ◌≤◌, ◌<◌, ◌≡◌, refl, ap, sym, ◌∙◌, true, false, ◌&&◌, List,
  [], ◌∷◌, ◌++◌, ltb, leb, ◌==◌, length, take, drop, All, arith, append_assoc, Bool-cases,
  length-replicate, take_append, inl, inr,
}
use firebird_bbs.ReadMark.{brc_maxnum}
use firebird_bbs.ReadMark.Codec.{
  brc_strlen, put_ints, get_ints, strncpy, text_of, Entry, byte_at, brc_getrecord, brc_putrecord,
  records_of,
}

int_round :
    (n : ℕ)
    → n < 4294967296
    → n % 256 + 256 * (n / 256 % 256) + 65536 * (n / 65536 % 256) + 16777216 * (n / 16777216 % 256)
      ≡ n
int_round n h = omega arith

-- Every number fits an `int`.
abbrev pub Ints : List ℕ → Type 0
Ints = All (λ n. n < 4294967296)

get_ints-put_ints :
    (l : List ℕ) (rest : Bytes) → Ints l → get_ints (length l) (put_ints l ++ rest) ≡ l
unfolding get_ints put_ints
get_ints-put_ints [] rest h = refl
get_ints-put_ints (n ∷ l) rest (h, hs) = rw (int_round n h, get_ints-put_ints l rest hs) refl

drop-put_ints : (l : List ℕ) (rest : Bytes) → drop (length l * 4) (put_ints l ++ rest) ≡ rest
unfolding put_ints
drop-put_ints [] rest = refl
drop-put_ints (n ∷ l) rest =
    let e : suc (length l) * 4 ≡ suc (suc (suc (suc (length l * 4)))) = omega arith in
    rw e (drop-put_ints l rest)

pub length-strncpy : (n : ℕ) (s : Bytes) → length (strncpy n s) ≡ n
unfolding strncpy
length-strncpy zero s = refl
length-strncpy (suc n) [] = ap suc (length-strncpy n [])
length-strncpy (suc n) (c ∷ s) = elim (Bool-cases (c == 0)) [
  | inl e ↦ rw e (length-replicate (suc n) 0)
  | inr e ↦ rw e (ap suc (length-strncpy n s))
]

text_of-strncpy : (n : ℕ) (s : Bytes) → length s ≤ n → text_of s ≡ s → text_of (strncpy n s) ≡ s
unfolding strncpy text_of
text_of-strncpy zero [] l h = refl
text_of-strncpy zero (c ∷ s) l h = absurd (omega arith)
text_of-strncpy (suc n) [] l h = refl
text_of-strncpy (suc n) (c ∷ s) l h = elim (Bool-cases (c == 0)) [
  | inl e ↦ absurd (ground arith)
  | inr e ↦
      let tail : text_of s ≡ s = ground arith in
      rw (e, text_of-strncpy n s (omega arith) tail, e) refl
]

byte_at_behind : (n : ℕ) (a : Bytes) (c : ℕ) (s : Bytes) → length a ≡ n → byte_at n (a ++ c ∷ s) ≡ c
unfolding byte_at
byte_at_behind zero [] c s h = refl
byte_at_behind zero (x ∷ a) c s h = absurd (omega arith)
byte_at_behind (suc n) [] c s h = absurd (omega arith)
byte_at_behind (suc n) (x ∷ a) c s h = byte_at_behind n a c s (omega arith)

take_front : (n : ℕ) (a s : Bytes) → length a ≡ n → take n (a ++ s) ≡ a
take_front n a s h = rw (← h) (take_append a s)

drop_front : (n : ℕ) (a : Bytes) (c : ℕ) (s : Bytes) → length a ≡ n → drop (suc n) (a ++ c ∷ s) ≡ s
drop_front zero [] c s h = refl
drop_front zero (x ∷ a) c s h = absurd (omega arith)
drop_front (suc n) [] c s h = absurd (omega arith)
drop_front (suc n) (x ∷ a) c s h = drop_front n a c s (omega arith)

-- A record as `brc_initial` and `brc_addlist` make it.
pub record IsEntry (e : Entry) : Type 0 where
  pub marked : 0 < length e.list
  pub few : length e.list ≤ brc_maxnum
  pub ints : Ints e.list
  pub short : length e.name ≤ brc_strlen
  pub no_zero : text_of e.name ≡ e.name
  pub printable : (leb b' ' (byte_at 0 e.name) && leb (byte_at 0 e.name) b'z') ≡ true

-- The bytes of such a record.
abbrev bytes_of : Entry → Bytes
bytes_of e = strncpy brc_strlen e.name ++ length e.list ∷ put_ints e.list

pub take_all : (n : ℕ) (l : List ℕ) → length l ≤ n → take n l ≡ l
take_all zero [] h = refl
take_all zero (x ∷ l) h = absurd (omega arith)
take_all (suc n) [] h = refl
take_all (suc n) (x ∷ l) h = ap (◌∷◌ x) (take_all n l (omega arith))

putrecord_bytes : (e : Entry) → IsEntry e → brc_putrecord e ≡ bytes_of e
unfolding brc_putrecord
putrecord_bytes e i =
    let some_marks : ltb 0 (length e.list) ≡ true = let h = i.marked in ground arith in
    let all : min (length e.list) brc_maxnum ≡ length e.list = omega (arith, i.few) in
    rw (some_marks, all, take_all brc_maxnum e.list i.few) refl

getrecord_bytes :
    (e : Entry) (rest : Bytes)
    → IsEntry e
    → brc_getrecord (strncpy brc_strlen e.name ++ length e.list ∷ (put_ints e.list ++ rest))
      ≡ (e, rest)
unfolding brc_getrecord
getrecord_bytes e rest i =
    let field = strncpy brc_strlen e.name in
    let h : length field ≡ brc_strlen = length-strncpy brc_strlen e.name in
    let s = put_ints e.list ++ rest in
    let all : min (length e.list) brc_maxnum ≡ length e.list = omega (arith, i.few) in
    rw
      (
        byte_at_behind brc_strlen field (length e.list) s h,
        take_front brc_strlen field (length e.list ∷ s) h,
        drop_front brc_strlen field (length e.list) s h,
        all,
        drop-put_ints e.list rest,
        get_ints-put_ints e.list rest i.ints,
        text_of-strncpy brc_strlen e.name i.short i.no_zero,
      )
      refl

getrecord_putrecord :
    (e : Entry) (rest : Bytes) → IsEntry e → brc_getrecord (brc_putrecord e ++ rest) ≡ (e, rest)
getrecord_putrecord e rest i =
    rw
      (
        putrecord_bytes e i,
        append_assoc (strncpy brc_strlen e.name) (length e.list ∷ put_ints e.list) rest,
      )
      (getrecord_bytes e rest i)

field_front :
    (n : ℕ) (name : Bytes)
    → (leb b' ' (byte_at 0 name) && leb (byte_at 0 name) b'z') ≡ true
    → (c : ℕ) × (s : Bytes) × (strncpy (suc n) name ≡ c ∷ s) × ((leb b' ' c && leb c b'z') ≡ true)
unfolding strncpy byte_at
field_front n [] h = absurd (ground arith)
field_front n (c ∷ name) h =
    let ne : (c == 0) ≡ false = ground arith in (c, strncpy n name, rw ne refl, h)

pub put_front :
    (e : Entry) (rest : Bytes)
    → IsEntry e
    → (c : ℕ) × (s : Bytes) × (brc_putrecord e ++ rest ≡ c ∷ s)
      × ((leb b' ' c && leb c b'z') ≡ true)
put_front e rest i =
    let (c, s, p, q) = field_front 14 e.name i.printable in
    (
      c,
      (s ++ length e.list ∷ put_ints e.list) ++ rest,
      rw (putrecord_bytes e i) (ap (λ f. (f ++ length e.list ∷ put_ints e.list) ++ rest) p),
      q,
    )

records_of_step :
    (n c : ℕ) (s : Bytes) (e : Entry) (rest : Bytes)
    → (leb b' ' c && leb c b'z') ≡ true
    → brc_getrecord (c ∷ s) ≡ (e, rest)
    → records_of (suc n) (c ∷ s) ≡ e ∷ records_of n rest
unfolding records_of
records_of_step n c s e rest p g = rw (p, g) refl

-- A file of such records.
abbrev pub file_of : List Entry → Bytes
file_of [] = []
file_of (e ∷ es) = brc_putrecord e ++ file_of es

pub records_of-file_of :
    (n : ℕ) (es : List Entry) → All IsEntry es → length es ≤ n → records_of n (file_of es) ≡ es
unfolding records_of
records_of-file_of zero [] a h = refl
records_of-file_of (suc n) [] a h = refl
records_of-file_of zero (e ∷ es) a h = absurd (omega arith)
records_of-file_of (suc n) (e ∷ es) (i, a) h =
    let (c, s, p, q) = put_front e (file_of es) i in
    rw p (
      records_of_step n c s e (file_of es) q
        (ap brc_getrecord (sym p) ∙ getrecord_putrecord e (file_of es) i)
      ∙ ap (◌∷◌ e) (records_of-file_of n es a (omega arith)))
