-- ===== src/Editor/Wrapping.antt =====
-- How a line that has become too long is broken in `insert_char` of bbssrc/src/edit.c.
use firebird_bbs.Base.Text.{Bytes}
use firebird_bbs.Base.{
  ℕ, suc, ◌+◌, ◌-◌, ◌≤◌, ◌<◌, ◌≡◌, refl, ◌∙◌, Bool, true, false, ◌&&◌, not, Option, none, some,
  List, [], ◌∷◌, ◌++◌, append_assoc, ltb, leb, ◌==◌, if◌then◌else◌, if_elim, length, length-append,
  length-set, set, arith, Bool-cases, inl, inr, ◌⊎◌, take, drop, length-take, length-drop,
}
use firebird_bbs.Editor.{Ptr, TextLine, Buffer, same_ptr, modify, follow_split}
use firebird_bbs.Editor.Wrap.{
  wrap_margin, char_at, is_blank, line_break, add_blank, join_on, put_char, wrap_line,
}
use firebird_bbs.Editor.Heap.{
  Cell, has, head_of, line_of, distinct-append, distinct-cons, has-append, fresh_out,
}
use firebird_bbs.Editor.Linking.{Shows, SameCursor, SameCursor-trans, last_after}
use firebird_bbs.Editor.Splitting.{tail_cell, split_followed}
use firebird_bbs.Editor.Deleting.{recell}
use firebird_bbs.Editor.Joining.{blanked, add_blank-Shows, next_of-Shows}
use firebird_bbs.Editor.Lines.{line_break_lt, deref-Shows, follow-Shows}
use firebird_bbs.Editor.Flowing.{texts, short, reflow, Flowed, join_on-Flowed}

-- The line with the character typed at `pnt`, put in or written over.
abbrev pub typed_line : Bool → Bytes → ℕ → ℕ → Bytes
typed_line insert_mode t pnt ch =
    if ltb pnt (length t) && not insert_mode then set t pnt ch else take pnt t ++ ch ∷ drop pnt t

-- Where a line that is too long is cut, and what is behind the cut: a word that moves down gets a
-- blank at its end.
abbrev pub break_in : Bytes → ℕ
break_in t = line_break t (length t - 1)

abbrev pub cut_at : Bytes → ℕ
cut_at t = if break_in t == 0 then length t - 1 else break_in t + 1

abbrev pub behind_cut : Bytes → Bytes
behind_cut t =
    if not (break_in t == 0) && leb 1 (length (drop (cut_at t) t))
    then blanked (drop (cut_at t) t)
    else drop (cut_at t) t

-- The line `t` and the lines behind it after typing, with `t` the line as typed.
abbrev pub wrapped : Bytes → List Bytes → List Bytes
wrapped t ds =
    if ltb (length t) wrap_margin then t ∷ ds else take (cut_at t) t ∷ reflow (behind_cut t) ds

-- How many lines the cursor goes down, and where it is in its line.
abbrev pub cursor_in : Bytes → ℕ → ℕ × ℕ
cursor_in t pnt =
    if ltb (length t) wrap_margin
    then (0, pnt)
    else if leb (cut_at t) pnt
    then (1, pnt - cut_at t)
    else (0, pnt)

-- What a run of `insert_char` leaves behind, `t` being the line as typed.
pub record Typed (b : Buffer) (xs ys : List Cell) (t : Bytes) (pnt : ℕ) (r : Option Buffer)
    : Type 0 where
  pub after : Buffer
  pub cells : List Cell
  pub runs : r ≡ some after
  pub shows : Shows after (xs ++ cells)
  pub lines : texts cells ≡ wrapped t (texts ys)
  pub line : after.currline ≡ head_of (drop (cursor_in t pnt).0 cells) none
  pub pnt_in : after.currpnt ≡ (cursor_in t pnt).1
  pub ln : after.currln ≡ b.currln + (cursor_in t pnt).0

pub length-typed_line :
    (m : Bool) (t : Bytes) (pnt ch : ℕ)
    → pnt ≤ length t
    → length (typed_line m t pnt ch) ≤ length t + 1
length-typed_line m t pnt ch h = elim (Bool-cases (ltb pnt (length t) && not m)) [
  | inl e ↦ rw (e, length-set t pnt ch) (omega arith)
  | inr e ↦
      rw (e, length-append (take pnt t) (ch ∷ drop pnt t), length-take pnt t, length-drop pnt t)
        (omega arith)
]

pub put_char-line :
    (m : Bool) (pnt ch : ℕ) (c : Cell)
    → pnt ≤ length c.bytes
    → (p q : Ptr)
    → put_char m pnt ch (line_of p c q) ≡ line_of p (recell c (typed_line m c.bytes pnt ch)) q
unfolding put_char
put_char-line m pnt ch c h p q = elim (Bool-cases (ltb pnt (length c.bytes) && not m)) [
  | inl e ↦ rw (e, length-set c.bytes pnt ch) refl
  | inr e ↦
      let n : length (take pnt c.bytes) + suc (length (drop pnt c.bytes)) ≡ length c.bytes + 1 =
        omega (arith, length-take pnt c.bytes, length-drop pnt c.bytes) in
      rw (e, length-append (take pnt c.bytes) (ch ∷ drop pnt c.bytes), n) refl
]

cut_fits : (t : Bytes) → 0 < length t → cut_at t ≤ length t
cut_fits t h = elim (Bool-cases (break_in t == 0)) [
  | inl z ↦ rw z (omega arith)
  | inr nz ↦ rw nz (omega (arith, line_break_lt t (length t - 1) (ground arith)))
]

length-blanked : (t : Bytes) → length (blanked t) ≤ length t + 1
length-blanked t = elim (Bool-cases (is_blank (char_at t (length t - 1)))) [
  | inl e ↦ rw e (omega arith)
  | inr e ↦ rw (e, length-append t (b' ' ∷ [])) (omega arith)
]

pub short_behind : (t : Bytes) → length t ≡ wrap_margin → length (behind_cut t) < wrap_margin
short_behind t h = elim (Bool-cases (break_in t == 0)) [
  | inl z ↦ rw (z, length-drop (length t - 1) t) (omega arith)
  | inr nz ↦
      let cut = drop (break_in t + 1) t in
      let pos : 0 < break_in t = ground arith in
      rw nz (
        if_elim (λ s. length s < wrap_margin) (leb 1 (length cut))
          (omega (arith, length-blanked cut, length-drop (break_in t + 1) t, pos))
          (omega (arith, length-drop (break_in t + 1) t, pos)))
]

-- What `wrap_line` leaves behind; `b4` is the buffer with the line cut, whose cursor it keeps.
pub record Wrapped (b4 : Buffer) (p : ℕ) (xs ys : List Cell) (c : Cell) (r : Option (Ptr × Buffer))
    : Type 0 where
  pub at : Ptr
  pub after : Buffer
  pub rest : List Cell
  pub runs : r ≡ some (at, after)
  pub shows : Shows after (xs ++ recell c (take (cut_at c.bytes) c.bytes) ∷ rest)
  pub lines : texts rest ≡ reflow (behind_cut c.bytes) (texts ys)
  pub second : head_of rest none ≡ some p
  pub cursor : SameCursor (follow_split b4 (some c.addr) (cut_at c.bytes) p) after

module _ (b : Buffer) (xs ys : List Cell) (c n : Cell) (sh : Shows b (xs ++ c ∷ n ∷ ys)) where
  -- The blank behind a word that moves down.
  blank_behind :
      (moves : Bool)
      → (b' : Buffer) × ((if moves then modify b (some n.addr) add_blank else some b) ≡ some b')
        × Shows b' (xs ++ c ∷ recell n (if moves then blanked n.bytes else n.bytes) ∷ ys)
        × SameCursor b b'
  blank_behind false = (b, refl, sh, record { line = refl; pnt = refl; ln = refl; mode = refl })
  blank_behind true =
      let (b1, e, sh1, k) =
        add_blank-Shows b (xs ++ c ∷ []) ys n (rw (append_assoc xs (c ∷ []) (n ∷ ys)) sh) in
      (b1, e, rw (append_assoc xs (c ∷ []) (recell n (blanked n.bytes) ∷ ys)) at sh1, k)

followed_line :
    (b : Buffer) (a pos p : ℕ)
    → b.currline ≡ some a
    → ((follow_split b (some a) pos p).currline ≡ some a)
      ⊎ ((follow_split b (some a) pos p).currline ≡ some p)
unfolding follow_split
followed_line b a pos p e = elim (Bool-cases (same_ptr (some a) b.currline && leb pos b.currpnt)) [
  | inl h ↦ inr (rw h refl)
  | inr h ↦ inl (rw h e)
]

behind_out :
    (b : Buffer) (xs ys : List Cell) (c : Cell)
    → Shows b (xs ++ c ∷ ys)
    → (has c.addr ys ≡ false) × (has b.fresh ys ≡ false)
behind_out b xs ys c sh =
    let (_, dc, _) = distinct-append xs (c ∷ ys) sh.apart in
    let whole = has-append b.fresh xs (c ∷ ys) in
    let out = fresh_out b.fresh (xs ++ c ∷ ys) sh.older in ((distinct-cons c ys dc).0, ground arith)

pub wrap_line-Wrapped :
    (rounds : ℕ) (b : Buffer) (xs ys : List Cell) (c : Cell) (p q : Ptr)
    → Shows b (xs ++ c ∷ ys)
    → b.currline ≡ some c.addr
    → length c.bytes ≡ wrap_margin
    → short (texts ys) ≡ true
    → length ys < rounds
    → (g : (ℕ → Option TextLine)) × Wrapped
        (record b { store = g; fresh = b.fresh + 1; lastline = last_after b.lastline b.fresh ys })
        b.fresh
        xs
        ys
        c
        (wrap_line rounds b (some c.addr) (line_of p c q))
unfolding wrap_line
wrap_line-Wrapped rounds b xs ys c p q sh cur full small fuel =
    let cut = cut_at c.bytes in
    let (g, (e1, sh1)) = split_followed b xs ys c cut sh (cut_fits c.bytes (omega arith)) in
    let b4 = record b {
      store = g;
      fresh = b.fresh + 1;
      lastline = last_after b.lastline b.fresh ys;
    } in
    let b1 = follow_split b4 (some c.addr) cut b.fresh in
    let c' = recell c (take cut c.bytes) in
    let n = tail_cell c cut b.fresh in
    let sh1' : Shows b1 (xs ++ c' ∷ n ∷ ys) =
      follow-Shows b4 (xs ++ c' ∷ n ∷ ys) (some c.addr) cut b.fresh sh1 in
    let next = next_of-Shows b1 xs (n ∷ ys) c' sh1' in
    let at_n = deref-Shows b1 (xs ++ c' ∷ []) ys n (rw (append_assoc xs (c' ∷ []) (n ∷ ys)) sh1') in
    let moves = not (break_in c.bytes == 0) && leb 1 (length (drop cut c.bytes)) in
    let (b2, e2, sh2, k2) = blank_behind b1 xs ys c' n sh1' moves in
    let n' = recell n (behind_cut c.bytes) in
    let there : Shows b2 ((xs ++ c' ∷ []) ++ n' ∷ ys) =
      rw (append_assoc xs (c' ∷ []) (n' ∷ ys)) sh2 in
    let cy = behind_out b xs ys c sh in
    let flow : Flowed b2 (xs ++ c' ∷ []) ys n' (join_on rounds b2 (some b.fresh)) =
      elim (followed_line b4 c.addr cut b.fresh cur) [
        | inl e ↦
            join_on-Flowed rounds b2 (xs ++ c' ∷ []) ys n' c.addr there (k2.line ∙ e) cy.0
              (short_behind c.bytes full) small fuel
        | inr e ↦
            join_on-Flowed rounds b2 (xs ++ c' ∷ []) ys n' b.fresh there (k2.line ∙ e) cy.1
              (short_behind c.bytes full) small fuel
      ] in
    (
      g,
      record {
        at = flow.at;
        after = flow.after;
        rest = flow.cells;
        runs = rw (e1, next, at_n, e2) flow.runs;
        shows = rw (append_assoc xs (c' ∷ []) flow.cells) at flow.shows;
        lines = flow.flowed;
        second = flow.first;
        cursor = SameCursor-trans k2 flow.cursor;
      },
    )
