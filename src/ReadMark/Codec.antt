-- ===== src/ReadMark/Codec.antt =====
-- `.boardrc`, the file of the marks of all boards: `brc_getrecord`, `brc_putrecord`, `brc_update`
-- and `brc_initial` of bbssrc/src/boards.c. An `int` is four bytes, the lowest first. A file is
-- taken to end with a whole record.
pub mod RoundTrip
pub mod Update
pub mod Tests
use firebird_bbs.Base.Text.{Bytes, bytes_eq}
use firebird_bbs.Base.{
  ℕ, zero, suc, ◌+◌, ◌-◌, ◌*◌, ◌/◌, ◌%◌, min, Bool, true, false, ◌&&◌, Option, none, some, List, [],
  ◌∷◌, ◌++◌, ltb, leb, ◌==◌, if◌then◌else◌, length, take, drop, replicate,
}
use firebird_bbs.ReadMark.{brc_maxnum, Brc}

abbrev pub brc_strlen : ℕ
brc_strlen = 15

abbrev pub brc_maxsize : ℕ
brc_maxsize = 50000

-- `BRC_STRLEN + 1 + BRC_MAXNUM * sizeof(int)`
abbrev pub brc_itemsize : ℕ
brc_itemsize = 256

abbrev pub int_bytes : ℕ → Bytes
int_bytes n = n % 256 ∷ n / 256 % 256 ∷ n / 65536 % 256 ∷ n / 16777216 % 256 ∷ []

pub put_ints : List ℕ → Bytes
put_ints [] = []
put_ints (n ∷ ns) = int_bytes n ++ put_ints ns

pub get_ints : ℕ → Bytes → List ℕ
get_ints zero s = []
get_ints (suc n) (a ∷ b ∷ c ∷ d ∷ s) = (a + 256 * b + 65536 * c + 16777216 * d) ∷ get_ints n s
get_ints (suc n) s = []

-- The field that `strncpy` fills, and the text that stands in one.
pub strncpy : ℕ → Bytes → Bytes
strncpy zero s = []
strncpy (suc n) [] = 0 ∷ strncpy n []
strncpy (suc n) (c ∷ s) = let rest = strncpy n s in if c == 0 then replicate (suc n) 0 else c ∷ rest

pub text_of : Bytes → Bytes
text_of [] = []
text_of (c ∷ s) = let rest = text_of s in if c == 0 then [] else c ∷ rest

-- One board's record: its name and its marks.
pub record Entry : Type 0 where
  pub name : Bytes
  pub list : List ℕ

-- The byte at an index.
pub byte_at : ℕ → Bytes → ℕ
byte_at i [] = 0
byte_at zero (c ∷ s) = c
byte_at (suc i) (c ∷ s) = byte_at i s

-- The record at the front, and what is behind it.
pub brc_getrecord : Bytes → Entry × Bytes
brc_getrecord ptr =
    let num = byte_at brc_strlen ptr in
    (
      record {
        name = text_of (take brc_strlen ptr);
        list = get_ints (min num brc_maxnum) (drop (brc_strlen + 1) ptr);
      },
      drop (num * 4) (drop (brc_strlen + 1) ptr),
    )

pub brc_putrecord : Entry → Bytes
brc_putrecord e =
    if ltb 0 (length e.list)
    then strncpy brc_strlen e.name
      ++ min (length e.list) brc_maxnum ∷ put_ints (take brc_maxnum e.list)
    else []

-- The `while` loop over a buffer; a buffer of `n` bytes has fewer than `n + 1` records.
pub records_of : ℕ → Bytes → List Entry
records_of zero s = []
records_of (suc n) [] = []
records_of (suc n) (c ∷ s) =
    let rest = records_of n (brc_getrecord (c ∷ s)).1 in
    if leb b' ' c && leb c b'z' then (brc_getrecord (c ∷ s)).0 ∷ rest else []

-- `strncmp(a, b, BRC_STRLEN) == 0`
abbrev pub same_board : Bytes → Bytes → Bool
same_board a b = bytes_eq (take brc_strlen a) (take brc_strlen b)

pub put_others : Bytes → List Entry → Bytes
put_others board [] = []
put_others board (e ∷ es) =
    let rest = put_others board es in
    if same_board e.name board then rest else brc_putrecord e ++ rest

-- The statics of boards.c, the current board and the user's `.boardrc`.
pub record Marks : Type 0 where
  pub brc_buf : Bytes
  pub brc_name : Bytes
  pub marks : Brc
  pub currboard : Bytes
  pub boardrc : Option Bytes

-- What `read` gives of the file.
abbrev pub contents : ℕ → Option Bytes → Bytes
contents size none = []
contents size (some s) = take size s

-- `open_ok`: the file can be opened for writing.
pub brc_update : Bool → Marks → Marks
brc_update open_ok m =
    let old = contents (brc_maxsize - brc_itemsize) m.boardrc in
    let buf =
      brc_putrecord (record { name = m.brc_name; list = m.marks.brc_list })
      ++ put_others m.currboard (records_of (length old) old) in
    if m.marks.brc_changed
    then record m {
      brc_buf = buf;
      marks = record m.marks { brc_changed = false };
      boardrc = if open_ok then some buf else m.boardrc;
    }
    else m

-- `brc_buf[0] == '\0'`
pub unfilled : Bytes → Bool
unfilled [] = true
unfilled (c ∷ s) = c == 0

pub find_board : Bytes → List Entry → Option Entry
find_board board [] = none
find_board board (e ∷ es) =
    let rest = find_board board es in if same_board e.name board then some e else rest

-- The record that the loop of `brc_initial` stops at, or a new one with the mark 1.
pub entry_of : Bytes → Bytes → Entry
entry_of boardname buf = elim (find_board boardname (records_of (length buf) buf)) [
  | some e ↦ e
  | none ↦ record { name = take brc_strlen boardname; list = 1 ∷ [] }
]

-- The board is not yet the current one.
pub load_board : Bytes → Marks → Marks
load_board boardname m =
    let buf = if unfilled m.brc_buf then contents brc_maxsize m.boardrc else m.brc_buf in
    let entry = entry_of boardname buf in
    record {
      brc_buf = buf;
      brc_name = entry.name;
      marks = record { brc_list = entry.list; brc_changed = false };
      currboard = boardname;
      boardrc = m.boardrc;
    }

pub brc_initial : Bool → Bytes → Marks → Marks
brc_initial open_ok boardname m =
    if bytes_eq m.currboard boardname then m else load_board boardname (brc_update open_ok m)
