-- ===== src/Editor.antt =====
-- The text of the editor, bbssrc/src/edit.c: a doubly linked list of lines and the cursor in it. The
-- heap is a map from addresses, where `none` is no line; a null pointer is `none` as well. `none` as
-- a result is a read or write through a pointer that is null or has been freed. `text` is `data`
-- up to the terminating zero, and `malloc` gives a fresh address and does not fail. What is
-- only for the display (`top_of_win`, `curr_window_line`, `redraw_everything`) is left out.
pub mod Wrap
pub mod Heap
pub mod Linking
pub mod Unlinking
pub mod Deleting
pub mod Splitting
pub mod Lines
pub mod Joining
pub mod Flowing
pub mod Wrapping
pub mod Typing
pub mod Keeping
pub mod Keys
pub mod Spots
pub mod Moving
pub mod Paging
pub mod Changing
pub mod Killing
pub mod Removing
pub mod Keystrokes
pub mod Jump
pub mod Files
pub mod Loading
pub mod Saving
pub mod Tests
use firebird_bbs.Base.Text.{Bytes}
use firebird_bbs.Base.Maps.{update}
use firebird_bbs.Base.{
  ℕ, zero, suc, ◌+◌, ◌-◌, Bool, true, false, ◌&&◌, ◌||◌, not, Option, none, some, List, [], ◌∷◌,
  ltb, leb, ◌==◌, if◌then◌else◌, take, drop, ◌>>=◌,
}

abbrev pub Ptr : Type 0
Ptr = Option ℕ

-- `struct textline` of bbssrc/include/edit.h.
pub record TextLine : Type 0 where
  pub prev : Ptr
  pub next : Ptr
  pub len : ℕ
  pub attr : ℕ
  pub text : Bytes

-- The statics of the editor, and the heap.
pub record Buffer : Type 0 where
  pub store : ℕ → Option TextLine
  pub fresh : ℕ
  pub firstline : Ptr
  pub lastline : Ptr
  pub currline : Ptr
  pub currpnt : ℕ
  pub currln : ℕ
  pub mark_begin : Ptr
  pub mark_end : Ptr
  pub mark_on : Bool
  pub insert_character : Bool

-- `p == q`
unfoldable pub same_ptr : Ptr → Ptr → Bool
same_ptr none none = true
same_ptr none (some b) = false
same_ptr (some a) none = false
same_ptr (some a) (some b) = a == b

-- `*p`
unfoldable pub deref : Buffer → Ptr → Option TextLine
deref b none = none
deref b (some p) = b.store p

unfoldable pub put_line : Buffer → ℕ → TextLine → Buffer
put_line b p l = record b { store = update b.store p (some l) }

-- A write to fields of `*p`.
unfoldable pub modify : Buffer → Ptr → (TextLine → TextLine) → Option Buffer
modify b none f = none
modify b (some p) f = do l ← b.store p; some (put_line b p (f l))

-- The address of a new line that is empty and not linked, and the buffer with it.
unfoldable pub alloc_line : Buffer → ℕ × Buffer
alloc_line b = (
  b.fresh,
  record (put_line b b.fresh (record { prev = none; next = none; len = 0; attr = 0; text = [] })) {
    fresh = b.fresh + 1;
  },
)

-- `append(p, line)` puts `p` behind `line`.
unfoldable pub append : Buffer → Ptr → Ptr → Option Buffer
append b p line = do
  l ← deref b line
  b1 ← modify b p (λ x. record x { next = l.next })
  b2 ← elim l.next [
    | some n ↦ modify b1 (some n) (λ x. record x { prev = p })
    | none ↦ some (record b1 { lastline = p })
  ]
  b3 ← modify b2 line (λ x. record x { next = p })
  modify b3 p (λ x. record x { prev = line })

-- `ADJUST_MARK`: a mark on the line moves to the next one, or to the previous one.
unfoldable pub adjust_mark : Ptr → Ptr → TextLine → Ptr
adjust_mark mark line l =
    if same_ptr mark line then elim l.next [ some n ↦ some n | none ↦ l.prev ] else mark

unfoldable pub clear_mark : Buffer → Buffer
clear_mark b = record b { mark_on = false; mark_begin = none; mark_end = none }

unfoldable pub free : Buffer → Ptr → Buffer
free b none = b
free b (some p) = record b { store = update b.store p none }

-- `if (line->next) line->next->prev = line->prev; else lastline = line->prev;`
unfoldable pub relink_next : Buffer → Ptr → Ptr → Option Buffer
relink_next b none prev = some (record b { lastline = prev })
relink_next b (some n) prev = modify b (some n) (λ x. record x { prev = prev })

-- `if (line->prev) line->prev->next = line->next; else firstline = line->next;`
unfoldable pub relink_prev : Buffer → Ptr → Ptr → Option Buffer
relink_prev b none next = some (record b { firstline = next })
relink_prev b (some q) next = modify b (some q) (λ x. record x { next = next })

unfoldable pub adjust_marks : Buffer → Ptr → TextLine → Buffer
adjust_marks b line l = record b {
  mark_begin = adjust_mark b.mark_begin line l;
  mark_end = adjust_mark b.mark_end line l;
}

-- A line that is linked to others.
unfoldable pub unlink : Buffer → Ptr → TextLine → Option Buffer
unlink b line l = do
  b1 ← relink_next (adjust_marks b line l) l.next l.prev
  b2 ← relink_prev b1 l.prev l.next
  some (free b2 line)

-- The only line of a text is emptied and stays.
unfoldable pub empty_line : Buffer → Ptr → Option Buffer
empty_line b line = do
  b1 ← modify b line (λ x. record x { text = []; len = 0 })
  some (clear_mark b1)

unfoldable pub delete_line : Buffer → Ptr → Option Buffer
delete_line b line = do
  l ← deref b line
  if same_ptr l.next none && same_ptr l.prev none then empty_line b line else unlink b line l

-- The cursor after `split`, where it was in the part that has become the line `p`.
unfoldable pub follow_split : Buffer → Ptr → ℕ → ℕ → Buffer
follow_split b line pos p =
    if same_ptr line b.currline && leb pos b.currpnt
    then record b { currline = some p; currpnt = b.currpnt - pos; currln = b.currln + 1 }
    else b

unfoldable pub split : Buffer → Ptr → ℕ → Option Buffer
split b line pos = do
  l ← deref b line
  if ltb l.len pos then some b else do
    let (p, b1) = alloc_line b
    b2 ←
        modify b1 (some p)
          (λ x. record x { len = l.len - pos; text = drop pos l.text; attr = l.attr })
    b3 ← modify b2 line (λ x. record x { len = pos; text = take pos x.text })
    b4 ← append b3 (some p) line
    some (follow_split b4 line pos p)

unfoldable pub vedit_init : Buffer → Buffer
vedit_init b =
    let (p, b1) = alloc_line b in
    record (clear_mark b1) {
      firstline = some p;
      lastline = some p;
      currline = some p;
      currpnt = 0;
      currln = 0;
    }
