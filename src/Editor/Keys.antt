-- ===== src/Editor/Keys.antt =====
-- `vedit_key` of bbssrc/src/edit.c, with `back_line`, `forward_line` and `countline`: what a key does
-- to the text and to the cursor. The tab, the marks, the keys that only draw, and `top_of_win` and
-- `curr_window_line`, which say what the window shows, are left out. `rounds`
-- bounds the loops that go down the lines; `none` is also a call of `abort_bbs`.
use firebird_bbs.Base.Text.{Bytes}
use firebird_bbs.Base.{
  ℕ, zero, suc, ◌+◌, ◌-◌, Bool, true, false, ◌&&◌, ◌||◌, not, Option, none, some, [], ◌∷◌, ltb, leb,
  ◌==◌, if◌then◌else◌, take, ◌>>=◌,
}
use firebird_bbs.Editor.{Ptr, TextLine, Buffer, same_ptr, deref, modify, delete_line, split}
use firebird_bbs.Editor.Wrap.{is_blank, join_on, Sign, origin, insert_at, delete_char}

-- The cases of the switch; a character is printable.
pub data Key : Type 0 where
  key_char : ℕ → Key
  key_enter : Key
  key_left : Key
  key_right : Key
  key_up : Key
  key_down : Key
  key_pgup : Key
  key_pgdn : Key
  key_home : Key
  key_end : Key
  key_start : Key
  key_tail : Key
  key_ins : Key
  key_backspace : Key
  key_del : Key
  key_delete_line : Key
  key_kill : Key

-- The static `lastindent`, where -1 is `none`, and `editansi`, with the text.
pub record Vedit : Type 0 where
  pub buffer : Buffer
  pub lastindent : Option ℕ
  pub editansi : Bool

-- The cursor is moved.
unfoldable pub place_cursor : Buffer → Ptr → ℕ → ℕ → Buffer
place_cursor b p pnt ln = record b { currline = p; currpnt = pnt; currln = ln }

-- One round of the loop of `back_line`, and of `forward_line`: the line, and `moveln`.
unfoldable pub step_back : Buffer → Ptr → ℕ → Option (Ptr × ℕ)
step_back b none moved = some (none, moved)
step_back b (some p) moved = do
  l ← deref b (some p)
  elim l.prev [ none ↦ some (some p, moved) | some q ↦ some (some q, moved + 1) ]

unfoldable pub step_forward : Buffer → Ptr → ℕ → Option (Ptr × ℕ)
step_forward b none moved = some (none, moved)
step_forward b (some p) moved = do
  l ← deref b (some p)
  elim l.next [ none ↦ some (some p, moved) | some q ↦ some (some q, moved + 1) ]

unfoldable pub line_steps :
    (Buffer → Ptr → ℕ → Option (Ptr × ℕ)) → ℕ → Buffer → Ptr → ℕ → Option (Ptr × ℕ)
line_steps step zero b pos moved = some (pos, moved)
line_steps step (suc num) b pos moved = do (q, m) ← step b pos moved; line_steps step num b q m

unfoldable pub back_line : Buffer → Ptr → ℕ → Option (Ptr × ℕ)
back_line b pos num = line_steps step_back num b pos 0

unfoldable pub forward_line : Buffer → Ptr → ℕ → Option (Ptr × ℕ)
forward_line b pos num = line_steps step_forward num b pos 0

-- `countline` from the line `pos` on.
unfoldable pub countline : ℕ → Buffer → Ptr → ℕ → Option ℕ
countline zero b pos moved = none
countline (suc k) b pos moved = if same_ptr pos b.lastline then some moved else do
  l ← deref b pos
  elim l.next [ none ↦ countline k b pos moved | some n ↦ countline k b (some n) (moved + 1) ]

-- `if (currpnt > currline->len) currpnt = currline->len;` and the like.
unfoldable pub min_len : ℕ → ℕ → ℕ
min_len len pnt = if ltb pnt len then pnt else len

-- `*killsp(s) == '\0'`
unfoldable pub all_blank : Bytes → Bool
all_blank [] = true
all_blank (c ∷ s) = is_blank c && all_blank s

-- `while (!join(p)) { p = p->next; if (p == NULL) ... abort_bbs(); }`
unfoldable pub join_down : ℕ → Buffer → Ptr → Option Buffer
join_down rounds b p = do (q, b1) ← join_on rounds b p; if same_ptr q none then none else some b1

-- The previous line of the cursor's line, with the length of it.
unfoldable pub to_prev : Buffer → TextLine → (ℕ → ℕ) → Option Buffer
to_prev b l pnt = elim l.prev [
  | none ↦ some b
  | some q ↦ do m ← deref b (some q); some (place_cursor b (some q) (pnt m.len) (b.currln - 1))
]

unfoldable pub move_left : Buffer → TextLine → Option Buffer
move_left b l =
    if leb 1 b.currpnt
    then some (record b { currpnt = b.currpnt - 1 })
    else to_prev b l (λ len. len)

-- The next line, unless that is the signature.
unfoldable pub to_next : Sign → Buffer → TextLine → (ℕ → ℕ) → Option Buffer
to_next sign b l pnt = elim l.next [
  | none ↦ some b
  | some n ↦ do
    on_it ← origin sign b (some n)
    m ← deref b (some n)
    let q = if on_it then m.prev else some n
    k ← deref b q
    some (place_cursor b q (pnt k.len) (if on_it then b.currln else b.currln + 1))
]

unfoldable pub move_right : Sign → Buffer → TextLine → Option Buffer
move_right sign b l =
    if not (l.len == b.currpnt)
    then some (record b { currpnt = b.currpnt + 1 })
    else to_next sign b l (λ len. 0)

unfoldable pub page_up : Buffer → Ptr → Option Buffer
page_up b p = do
  (q, moved) ← back_line b p 22
  l ← deref b q
  some (place_cursor b q (min_len l.len b.currpnt) (b.currln - moved))

-- The cursor does not stay on the signature, nor behind it.
unfoldable pub off_origin : Sign → Buffer → Option Buffer
off_origin sign b = do
  l ← deref b b.currline
  behind ← origin sign b l.prev
  b1 ←
      (if behind
        then (do m ← deref b l.prev; some (record b { currline = m.prev; currln = b.currln - 2 }))
        else some b)
  on_it ← origin sign b1 b1.currline
  if on_it
      then (do
        m ← deref b1 b1.currline
        some (record b1 { currline = m.prev; currln = b1.currln - 1 }))
      else some b1

unfoldable pub page_down : Sign → Buffer → Ptr → Option Buffer
page_down sign b p = do
  (q, moved) ← forward_line b p 22
  l ← deref b q
  off_origin sign (place_cursor b q (min_len l.len b.currpnt) (b.currln + moved))

unfoldable pub to_tail : Sign → ℕ → Buffer → Option Buffer
to_tail sign rounds b = do
  moved ← countline rounds b b.firstline 0
  l ← deref b b.lastline
  behind ← origin sign b l.prev
  if behind
      then (do m ← deref b l.prev; some (place_cursor b m.prev 0 (moved - 2)))
      else some (place_cursor b b.lastline 0 moved)

unfoldable pub backspace : ℕ → Buffer → TextLine → Option Buffer
backspace rounds b l =
    if leb 1 b.currpnt then delete_char (record b { currpnt = b.currpnt - 1 }) else elim l.prev [
      | none ↦ some b
      | some q ↦ do
        m ← deref b (some q)
        n ← deref b m.next
        let b1 = place_cursor b (some q) m.len (b.currln - 1)
        if all_blank n.text then delete_line b1 m.next else join_down rounds b1 (some q)
    ]

-- A line is emptied by `data[0] = '\0'; len = 0;`.
unfoldable pub empty_text : TextLine → TextLine
empty_text l = record l { len = 0; text = [] }

-- The line, which has no text, goes.
unfoldable pub kill_line : Sign → Buffer → Ptr → TextLine → Option Buffer
kill_line sign b p l = do
  let q = if same_ptr l.next none then l.prev else l.next
  b1 ← delete_line b p
  let b2 = record b1 {
    currline = q;
    currln = if same_ptr l.next none then b.currln - 1 else b.currln;
  }
  on_it ← origin sign b2 q
  if on_it
      then (do m ← deref b2 q; some (record b2 { currline = m.prev; currln = b2.currln - 1 }))
      else some b2

-- `no_touch`
unfoldable pub has_escape : Bytes → Bool
has_escape [] = false
has_escape (c ∷ s) = c == 27 || has_escape s

unfoldable pub kill_rest : Sign → ℕ → Buffer → Ptr → TextLine → Option Buffer
kill_rest sign rounds b p l =
    if l.len == 0
    then kill_line sign b p l
    else if l.len == b.currpnt
    then join_down rounds b p
    else modify b p (λ x. record x { len = b.currpnt; text = take b.currpnt x.text })

-- Ctrl-K in the line `p`.
unfoldable pub kill_to_end : Sign → ℕ → Bool → Buffer → Ptr → Option Buffer
kill_to_end sign rounds editansi b p = do
  l ← deref b p
  on_next ← origin sign b l.next
  if editansi && has_escape l.text
      then some b
      else if same_ptr l.prev none && same_ptr l.next none
      then (do b1 ← modify b p (λ x. record x { text = [] }); some (record b1 { currpnt = 0 }))
      else if on_next && b.currpnt == l.len && not (b.currpnt == 0)
      then some b
      else if on_next && same_ptr l.prev none
      then (do b1 ← modify b p empty_text; some (record b1 { currpnt = 0 }))
      else kill_rest sign rounds b p l

-- Ctrl-Y in the line `p`.
unfoldable pub remove_line : Sign → ℕ → Bool → Buffer → Ptr → Option Buffer
remove_line sign rounds editansi b p = do
  l ← deref b p
  on_next ← origin sign b l.next
  let b1 = record b { currpnt = 0 }
  if same_ptr l.prev none && (on_next || same_ptr l.next none)
      then modify b1 p empty_text
      else (do b2 ← modify b1 p (λ x. record x { len = 0 }); kill_to_end sign rounds editansi b2 p)

unfoldable pub delete_here : Sign → ℕ → Bool → Buffer → Ptr → TextLine → Option Buffer
delete_here sign rounds editansi b p l = if not (l.len == b.currpnt) then delete_char b else do
  on_next ← origin sign b l.next
  if not on_next
      then join_down rounds b p
      else if b.currpnt == 0
      then kill_to_end sign rounds editansi b p
      else some b

-- `NO_ANSI_MODIFY`: nothing is done on a line with colours that is shown in colours.
unfoldable pub unless_escape : Bool → TextLine → Buffer → Option Buffer → Option Buffer
unless_escape editansi l b r = if editansi && has_escape l.text then some b else r

unfoldable pub vedit_key_at : Sign → ℕ → Bool → ℕ → Buffer → Ptr → TextLine → Key → Option Buffer
vedit_key_at sign rounds ansi indent b p l (key_char ch) =
    unless_escape ansi l b (insert_at sign rounds b p ch)
vedit_key_at sign rounds ansi indent b p l key_enter = unless_escape ansi l b (split b p b.currpnt)
vedit_key_at sign rounds ansi indent b p l key_left = move_left b l
vedit_key_at sign rounds ansi indent b p l key_right = move_right sign b l
vedit_key_at sign rounds ansi indent b p l key_up = to_prev b l (λ len. min_len len indent)
vedit_key_at sign rounds ansi indent b p l key_down = to_next sign b l (λ len. min_len len indent)
vedit_key_at sign rounds ansi indent b p l key_pgup = page_up b p
vedit_key_at sign rounds ansi indent b p l key_pgdn = page_down sign b p
vedit_key_at sign rounds ansi indent b p l key_home = some (record b { currpnt = 0 })
vedit_key_at sign rounds ansi indent b p l key_end = some (record b { currpnt = l.len })
vedit_key_at sign rounds ansi indent b p l key_start = some (place_cursor b b.firstline 0 0)
vedit_key_at sign rounds ansi indent b p l key_tail = to_tail sign rounds b
vedit_key_at sign rounds ansi indent b p l key_ins =
    some (record b { insert_character = not b.insert_character })
vedit_key_at sign rounds ansi indent b p l key_backspace =
    unless_escape ansi l b (backspace rounds b l)
vedit_key_at sign rounds ansi indent b p l key_del =
    unless_escape ansi l b (delete_here sign rounds ansi b p l)
vedit_key_at sign rounds ansi indent b p l key_delete_line = remove_line sign rounds ansi b p
vedit_key_at sign rounds ansi indent b p l key_kill = kill_to_end sign rounds ansi b p

-- `lastindent` after a key.
unfoldable pub next_indent : Option ℕ → ℕ → Key → Option ℕ
next_indent none pnt key_up = some pnt
next_indent none pnt key_down = some pnt
next_indent (some i) pnt key_up = some i
next_indent (some i) pnt key_down = some i
next_indent last pnt key = none

unfoldable pub vedit_key : Sign → ℕ → Vedit → Key → Option Vedit
vedit_key sign rounds v key = do
  let b = v.buffer
  let indent = next_indent v.lastindent b.currpnt key
  l ← deref b b.currline
  b1 ←
      vedit_key_at sign rounds v.editansi (elim indent [ none ↦ b.currpnt | some i ↦ i ]) b
        b.currline l key
  some (record v { buffer = b1; lastindent = indent })
