-- ===== src/Editor/Wrap.antt =====
-- `join`, `insert_char` and `delete_char` of bbssrc/src/edit.c, with the wrapping of long lines. A
-- line's `len` is taken to be the length of its text where bytes are moved.
use firebird_bbs.Base.Text.{Bytes}
use firebird_bbs.Base.{
  ℕ, zero, suc, ◌+◌, ◌-◌, Bool, true, false, ◌&&◌, ◌||◌, not, Option, none, some, [], ◌∷◌, ◌++◌,
  ltb, leb, ◌==◌, if◌then◌else◌, set, take, drop, ◌>>=◌,
}
use firebird_bbs.Editor.{Ptr, TextLine, Buffer, deref, modify, delete_line, split}

-- `#define WRAPMARGIN (255)` of bbssrc/include/edit.h.
abbrev pub wrap_margin : ℕ
wrap_margin = 255

-- `data[i]`, the terminating zero included.
unfoldable pub char_at : Bytes → ℕ → ℕ
char_at [] i = 0
char_at (c ∷ s) zero = c
char_at (c ∷ s) (suc i) = char_at s i

abbrev pub is_blank : ℕ → Bool
is_blank c = c == b' '

-- `while (s != p->data && test(*s)) s--;` from index `i`.
unfoldable pub back_while : (ℕ → Bool) → Bytes → ℕ → ℕ
back_while test d zero = zero
back_while test d (suc i) =
    let rest = back_while test d i in if test (char_at d (suc i)) then rest else suc i

-- The two loops that look for the blank to break a line at; 0 is none.
unfoldable pub line_break : Bytes → ℕ → ℕ
line_break d i = back_while (λ c. not (is_blank c)) d (back_while is_blank d i)

-- `strcat(p->data, " "); p->len++;` unless the line ends in a blank.
unfoldable pub add_blank : TextLine → TextLine
add_blank l =
    if is_blank (char_at l.text (l.len - 1))
    then l
    else record l { text = l.text ++ b' ' ∷ []; len = l.len + 1 }

-- The end of `join`, where a part has gone to the line before.
unfoldable pub pad_next : Buffer → Ptr → Option Buffer
pad_next b p = do
  l ← deref b p
  if leb 1 l.len && ltb (l.len + 1) wrap_margin then modify b p add_blank else some b

-- Both lines fit into one.
unfoldable pub join_whole : Buffer → Ptr → Ptr → Option Buffer
join_whole b line next = do
  n ← deref b next
  b1 ← modify b line (λ x. record x { text = x.text ++ n.text; len = x.len + n.len })
  delete_line b1 next

-- `line->next`
unfoldable pub next_of : Buffer → Ptr → Option Ptr
next_of b p = do l ← deref b p; some l.next

-- The part of the next line up to `pos` is split off and joined; `again` is the inner call of `join`.
-- True is YEA.
unfoldable pub join_part :
    (Buffer → Ptr → Option (Bool × Buffer)) → Buffer → Ptr → Ptr → ℕ → Option (Bool × Buffer)
join_part again b line next pos = do
  b1 ← split b next pos
  l ← deref b1 line
  m ← deref b1 next
  if leb wrap_margin (l.len + m.len) then some (true, b1) else do
    (joined, b2) ← again b1 line
    p ← next_of b2 line
    b3 ← pad_next b2 p
    some (false, b3)

-- Where `line` has 255 bytes the source looks in front of `data`; here that is the first byte.
unfoldable pub join_next :
    (Buffer → Ptr → Option (Bool × Buffer)) → Buffer → Ptr → TextLine → Ptr → Option (Bool × Buffer)
join_next again b line l next = do
  m ← deref b next
  let ovfl = l.len + m.len - wrap_margin
  let i = line_break m.text (m.len - ovfl - 1)
  if ltb (l.len + m.len) wrap_margin
      then (do b1 ← join_whole b line next; some (true, b1))
      else if i == 0
      then some (true, b)
      else join_part again b line next (i + 1)

-- `join` with at most so many calls of itself, one in another.
unfoldable pub join_rounds : ℕ → Buffer → Ptr → Option (Bool × Buffer)
join_rounds zero b line = none
join_rounds (suc k) b line = do
  l ← deref b line
  elim l.next [ none ↦ some (true, b) | some n ↦ join_next (join_rounds k) b line l (some n) ]

-- The inner call makes no further one.
unfoldable pub join : Buffer → Ptr → Option (Bool × Buffer)
join b line = join_rounds 2 b line

-- `while (!join(p)) { p = p->next; ... }` with at most so many rounds; a null result is the end of
-- the text.
unfoldable pub join_on : ℕ → Buffer → Ptr → Option (Ptr × Buffer)
join_on zero b p = none
join_on (suc k) b p = do
  (joined, b1) ← join b p
  q ← (if joined then some none else next_of b1 p)
  if joined
      then some (p, b1)
      else elim q [ none ↦ some (none, b1) | some n ↦ join_on k b1 (some n) ]

-- The character at the cursor is overwritten, or the new one is put in.
unfoldable pub put_char : Bool → ℕ → ℕ → TextLine → TextLine
put_char insert_mode pnt ch l =
    if ltb pnt l.len && not insert_mode
    then record l { text = set l.text pnt ch }
    else record l { text = take pnt l.text ++ ch ∷ drop pnt l.text; len = l.len + 1 }

-- What `Origin` looks for: whether a posted article is edited, and the text of its signature.
pub record Sign : Type 0 where
  pub editing : Bool
  pub mark : Bytes

unfoldable pub starts_with : Bytes → Bytes → Bool
starts_with [] s = true
starts_with (a ∷ m) [] = false
starts_with (a ∷ m) (c ∷ s) = a == c && starts_with m s

-- `strstr(s, m) != NULL`
unfoldable pub contains : Bytes → Bytes → Bool
contains m [] = starts_with m []
contains m (c ∷ s) = starts_with m (c ∷ s) || contains m s

unfoldable pub origin : Sign → Buffer → Ptr → Option Bool
origin sign b none = some false
origin sign b (some p) =
    if sign.editing
    then (do l ← b.store p; some (contains sign.mark l.text && not (char_at l.text 0 == b':')))
    else some false

-- A line that has become too long is broken, and what is behind goes down the lines. The result is
-- also the line that the loop stopped at.
unfoldable pub wrap_line : ℕ → Buffer → Ptr → TextLine → Option (Ptr × Buffer)
wrap_line rounds b p l = do
  let i = line_break l.text (l.len - 1)
  b1 ← split b p (if i == 0 then l.len - 1 else i + 1)
  q ← next_of b1 p
  m ← deref b1 q
  b2 ← (if not (i == 0) && leb 1 m.len then modify b1 q add_blank else some b1)
  join_on rounds b2 q

-- The cursor does not stay on the signature line.
unfoldable pub leave_origin : Sign → Buffer → Ptr → Option Buffer
leave_origin sign b p = do
  on_it ← origin sign b b.currline
  if on_it
      then (do q ← deref b p; some (record b { currline = q.prev; currln = b.currln - 1 }))
      else some b

-- `insert_char` in the line `p`.
unfoldable pub insert_at : Sign → ℕ → Buffer → Ptr → ℕ → Option Buffer
insert_at sign rounds b p ch = do
  old ← deref b p
  if ltb old.len b.currpnt then some b else do
    b1 ← modify b p (put_char b.insert_character b.currpnt ch)
    l ← deref b1 p
    let b2 = record b1 { currpnt = b.currpnt + 1 }
    if ltb l.len wrap_margin
        then some b2
        else do (r, b3) ← wrap_line rounds b2 p l; leave_origin sign b3 r

unfoldable pub insert_char : Sign → ℕ → Buffer → ℕ → Option Buffer
insert_char sign rounds b ch = insert_at sign rounds b b.currline ch

-- `delete_char` in the line `p`.
unfoldable pub delete_at : Buffer → Ptr → Option Buffer
delete_at b p = do
  l ← deref b p
  if l.len == 0 || leb l.len b.currpnt
      then some b
      else modify b p (λ x. record x {
        text = take b.currpnt x.text ++ drop (b.currpnt + 1) x.text;
        len = x.len - 1;
      })

unfoldable pub delete_char : Buffer → Option Buffer
delete_char b = delete_at b b.currline
