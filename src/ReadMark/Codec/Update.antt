-- ===== src/ReadMark/Codec/Update.antt =====
-- `.boardrc` after `brc_update`, and `brc_initial` after it, of bbssrc/src/boards.c.
use firebird_bbs.Base.Text.{Bytes, bytes_eq}
use firebird_bbs.Base.{
  ℕ, ◌-◌, ◌*◌, min, ◌≤◌, ◌<◌, ◌≡◌, refl, ap, ◌∙◌, Bool, true, false, Option, some, List, [], ◌∷◌,
  ◌++◌, ltb, ◌==◌, if◌then◌else◌, length, take, All, arith, Bool-cases, inl, inr, length-append,
  length-take,
}
use firebird_bbs.ReadMark.{brc_maxnum}
use firebird_bbs.ReadMark.Codec.{
  brc_strlen, brc_maxsize, brc_itemsize, put_ints, strncpy, Entry, brc_putrecord, records_of,
  same_board, put_others, Marks, contents, brc_update, unfilled, find_board, entry_of, load_board,
  brc_initial,
}
use firebird_bbs.ReadMark.Codec.RoundTrip.{
  IsEntry, file_of, take_all, put_front, records_of-file_of, length-strncpy,
}

length-put_ints : (l : List ℕ) → length (put_ints l) ≡ length l * 4
unfolding put_ints
length-put_ints [] = refl
length-put_ints (n ∷ l) = omega (arith, length-put_ints l)

-- A record that `brc_putrecord` writes fits BRC_ITEMSIZE bytes.
putrecord_fits : (e : Entry) → length (brc_putrecord e) ≤ brc_itemsize
unfolding brc_putrecord
putrecord_fits e = elim (Bool-cases (ltb 0 (length e.list))) [
  | inl h ↦
      rw
        (
          h,
          length-append (strncpy brc_strlen e.name)
              (min (length e.list) brc_maxnum ∷ put_ints (take brc_maxnum e.list)),
        )
        (omega (
          arith,
          length-strncpy brc_strlen e.name,
          length-put_ints (take brc_maxnum e.list),
          length-take brc_maxnum e.list,
        ))
  | inr h ↦ rw h (omega arith)
]

-- The records of the other boards.
abbrev pub others : Bytes → List Entry → List Entry
others board [] = []
others board (e ∷ es) = if same_board e.name board then others board es else e ∷ others board es

put_others_file :
    (board : Bytes) (es : List Entry) → put_others board es ≡ file_of (others board es)
unfolding put_others
put_others_file board [] = refl
put_others_file board (e ∷ es) = elim (Bool-cases (same_board e.name board)) [
  | inl h ↦ rw h (put_others_file board es)
  | inr h ↦ rw h (ap (◌++◌ (brc_putrecord e)) (put_others_file board es))
]

length-others :
    (board : Bytes) (es : List Entry) → length (file_of (others board es)) ≤ length (file_of es)
length-others board [] = omega arith
length-others board (e ∷ es) = elim (Bool-cases (same_board e.name board)) [
  | inl h ↦
      rw h (omega (arith, length-append (brc_putrecord e) (file_of es), length-others board es))
  | inr h ↦ rw h (
      omega (
        arith,
        length-append (brc_putrecord e) (file_of es),
        length-append (brc_putrecord e) (file_of (others board es)),
        length-others board es,
      ))
]

others-IsEntry : (board : Bytes) (es : List Entry) → All IsEntry es → All IsEntry (others board es)
others-IsEntry board [] a = a
others-IsEntry board (e ∷ es) (i, a) = elim (Bool-cases (same_board e.name board)) [
  | inl h ↦ rw h (others-IsEntry board es a)
  | inr h ↦ rw h (i, others-IsEntry board es a)
]

putrecord_some : (e : Entry) → IsEntry e → 0 < length (brc_putrecord e)
unfolding brc_putrecord
putrecord_some e i =
    let h : ltb 0 (length e.list) ≡ true = let m = i.marked in ground arith in
    rw
      (
        h,
        length-append (strncpy brc_strlen e.name)
            (min (length e.list) brc_maxnum ∷ put_ints (take brc_maxnum e.list)),
      )
      (omega arith)

length-file_of : (es : List Entry) → All IsEntry es → length es ≤ length (file_of es)
length-file_of [] a = omega arith
length-file_of (e ∷ es) (i, a) =
    omega
      (arith, length-append (brc_putrecord e) (file_of es), putrecord_some e i, length-file_of es a)

-- All records of a `.boardrc`, as `brc_initial` reads it.
abbrev pub boards_in : Option Bytes → List Entry
boards_in f = records_of (length (contents brc_maxsize f)) (contents brc_maxsize f)

boards_in-file_of :
    (es : List Entry)
    → All IsEntry es
    → length (file_of es) ≤ brc_maxsize
    → boards_in (some (file_of es)) ≡ es
boards_in-file_of es a h =
    rw (take_all brc_maxsize (file_of es) h)
      (records_of-file_of (length (file_of es)) es a (length-file_of es a))

-- The current board's record.
abbrev pub current : Marks → Entry
current m = record { name = m.brc_name; list = m.marks.brc_list }

module _ (m : Marks) (es : List Entry) (changed : m.marks.brc_changed ≡ true)
    (on_disk : m.boardrc ≡ some (file_of es)) (entries : All IsEntry es)
    (valid : IsEntry (current m)) (fits : length (file_of es) ≤ brc_maxsize - brc_itemsize) where
  abbrev saved : List Entry
  saved = current m ∷ others m.currboard es

  update_buf : (ok : Bool) → (brc_update ok m).brc_buf ≡ file_of saved
  unfolding brc_update
  update_buf ok =
      let whole = take_all (brc_maxsize - brc_itemsize) (file_of es) fits in
      rw
        (
          changed,
          on_disk,
          whole,
          records_of-file_of (length (file_of es)) es entries (length-file_of es entries),
          put_others_file m.currboard es,
        )
        refl

  update_file : (brc_update true m).boardrc ≡ some (brc_update true m).brc_buf
  unfolding brc_update
  update_file = rw changed refl

  saved_fits : length (file_of saved) ≤ brc_maxsize
  saved_fits = omega (
    arith,
    fits,
    length-append (brc_putrecord (current m)) (file_of (others m.currboard es)),
    putrecord_fits (current m),
    length-others m.currboard es,
  )

  saved-IsEntry : All IsEntry saved
  saved-IsEntry = (valid, others-IsEntry m.currboard es entries)

  -- Where the marks have changed, and `.boardrc` holds whole valid records of at most 49744 bytes and
  -- can be written: after `brc_update`, reading it gives the current board's marks first, and then
  -- the records of all other boards, unchanged and in their order; and the file is at most
  -- BRC_MAXSIZE bytes long, so that it fits the buffer.
  pub brc_update_lem :
      (boards_in (brc_update true m).boardrc ≡ current m ∷ others m.currboard es)
      × (length (brc_update true m).brc_buf ≤ brc_maxsize)
  brc_update_lem = (
    rw (update_file, update_buf true) (boards_in-file_of saved saved-IsEntry saved_fits),
    rw (update_buf true) saved_fits,
  )

  update_kept :
      (ok : Bool)
      → ((brc_update ok m).currboard ≡ m.currboard) × ((brc_update ok m).marks.brc_changed ≡ false)
  unfolding brc_update
  update_kept ok = (ground arith, ground arith)

filled : (e : Entry) (es : List Entry) → IsEntry e → unfilled (file_of (e ∷ es)) ≡ false
unfolding unfilled
filled e es i =
    let (c, s, p, q) = put_front e (file_of es) i in
    let ne : (c == 0) ≡ false = ground arith in rw (p, ne) refl

load_buf :
    (board : Bytes) (m : Marks)
    → unfilled m.brc_buf ≡ false
    → (load_board board m).brc_buf ≡ m.brc_buf
unfolding load_board
load_buf board m h = rw h refl

load_kept :
    (board : Bytes) (m : Marks)
    → ((load_board board m).currboard ≡ board) × ((load_board board m).marks.brc_changed ≡ false)
unfolding load_board
load_kept board m = (refl, refl)

entry_first :
    (board buf : Bytes) (e : Entry) (es : List Entry)
    → buf ≡ file_of (e ∷ es)
    → All IsEntry (e ∷ es)
    → same_board e.name board ≡ true
    → entry_of board buf ≡ e
unfolding entry_of find_board
entry_first board buf e es b a s =
    let whole =
      records_of-file_of (length (file_of (e ∷ es))) (e ∷ es) a (length-file_of (e ∷ es) a) in
    rw (b, entry_of, whole, s) refl

load_first :
    (board : Bytes) (m : Marks) (e : Entry) (es : List Entry)
    → m.brc_buf ≡ file_of (e ∷ es)
    → All IsEntry (e ∷ es)
    → same_board e.name board ≡ true
    → (load_board board m).marks.brc_list ≡ e.list
unfolding load_board
load_first board m e es b (i, a) s =
    let full : unfilled m.brc_buf ≡ false = ap unfilled b ∙ filled e es i in
    rw full (ap (λ (x : Entry). x.list) (entry_first board m.brc_buf e es b (i, a) s))

initial_other :
    (ok : Bool) (board : Bytes) (m : Marks)
    → bytes_eq m.currboard board ≡ false
    → brc_initial ok board m ≡ load_board board (brc_update ok m)
unfolding brc_initial
initial_other ok board m h = rw h refl

update_unchanged : (ok : Bool) (m : Marks) → m.marks.brc_changed ≡ false → brc_update ok m ≡ m
unfolding brc_update
update_unchanged ok m h = rw h refl

-- Where the marks of the current board have changed and are valid, and `.boardrc` holds whole valid
-- records of at most 49744 bytes: a user who goes on to another board and then comes back finds the
-- marks of the first board as they were left, even when `.boardrc` could not be written.
pub brc_initial_back :
    (m : Marks) (es : List Entry) (ok : Bool) (other : Bytes)
    → m.marks.brc_changed ≡ true
    → m.boardrc ≡ some (file_of es)
    → All IsEntry es
    → IsEntry (current m)
    → length (file_of es) ≤ brc_maxsize - brc_itemsize
    → bytes_eq m.currboard other ≡ false
    → bytes_eq other m.currboard ≡ false
    → same_board m.brc_name m.currboard ≡ true
    → (brc_initial ok m.currboard (brc_initial ok other m)).marks.brc_list ≡ m.marks.brc_list
brc_initial_back m es ok other changed on_disk entries valid fits away back named =
    let buf = update_buf m es changed on_disk entries valid fits ok in
    let m1 = brc_update ok m in
    let m2 = load_board other m1 in
    let buf2 : m2.brc_buf ≡ file_of (current m ∷ others m.currboard es) =
      load_buf other m1 (ap unfilled buf ∙ filled (current m) (others m.currboard es) valid)
      ∙ buf in
    let (at_other, unchanged) = load_kept other m1 in
    rw
      (
        initial_other ok other m away,
        initial_other ok m.currboard m2 (ap (λ b. bytes_eq b m.currboard) at_other ∙ back),
        update_unchanged ok m2 unchanged,
      )
      (load_first m.currboard m2 (current m) (others m.currboard es) buf2
        (valid, others-IsEntry m.currboard es entries) named)
