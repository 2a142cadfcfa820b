-- ===== src/Editor/Deleting.antt =====
-- The text that the buffer shows after `delete_line` of bbssrc/src/edit.c.
use firebird_bbs.Base.Text.{Bytes}
use firebird_bbs.Base.Maps.{update, update_self}
use firebird_bbs.Base.{
  ℕ, ◌≡◌, refl, sym, ap, ◌∙◌, true, false, ◌||◌, ◌&&◌, Option, none, some, List, [], ◌∷◌, ◌++◌, ltb,
  ◌==◌, arith, Bool-cases, inl, inr,
}
use firebird_bbs.Editor.{
  Ptr, TextLine, Buffer, same_ptr, deref, put_line, modify, adjust_mark, adjust_marks, delete_line,
  empty_line, clear_mark,
}
use firebird_bbs.Editor.Heap.{
  Cell, has, head_of, last_of, line_of, Seg, distinct, below, below-append, frame-update,
  Seg-append, Seg-left, Seg-right, distinct-append, append-distinct, distinct-cons,
}
use firebird_bbs.Editor.Linking.{Shows, SameCursor, out_front, has_here}
use firebird_bbs.Editor.Unlinking.{last_without, without_line, unlink-Seg}

pub last_of-append :
    (a : Ptr) (xs ys : List Cell) → last_of a (xs ++ ys) ≡ last_of (last_of a xs) ys
last_of-append a [] ys = refl
last_of-append a (x ∷ xs) ys = last_of-append (some x.addr) xs ys

-- The cell with other bytes.
abbrev pub recell : Cell → Bytes → Cell
recell c t = record c { bytes = t }

-- What is left of a text when the line `c` goes: the only line stays, and is emptied.
abbrev pub deleted_lines : List Cell → Cell → List Cell → List Cell
deleted_lines [] c [] = recell c [] ∷ []
deleted_lines [] c (y ∷ ys) = y ∷ ys
deleted_lines (x ∷ xs) c ys = x ∷ (xs ++ ys)

pub unlinked-Shows :
    (b : Buffer) (xs ys : List Cell) (c : Cell) (g : ℕ → Option TextLine)
    → Shows b (xs ++ c ∷ ys)
    → Seg g none (xs ++ ys) none
    → Shows (record (without_line b xs c ys) { store = g }) (xs ++ ys)
unfolding adjust_marks
unlinked-Shows b xs ys c g sh s =
    let (dx, dcy, apart) = distinct-append xs (c ∷ ys) sh.apart in
    record {
      chain = s;
      first = first xs (sh.first);
      last = last ys sh.last;
      apart =
          append-distinct xs ys dx (distinct-cons c ys dcy).1
            (λ a i. let o = apart a i in ground arith);
      older =
          let whole = below-append b.fresh xs (c ∷ ys) in
          let rest = below-append b.fresh xs ys in let h = sh.older in ground arith;
    }
  where
    first :
        (zs : List Cell)
        → b.firstline ≡ head_of (zs ++ c ∷ ys) none
        → last_without b.firstline (head_of ys none) zs ≡ head_of (zs ++ ys) none
    first [] e = refl
    first (z ∷ zs) e = e

    last :
        (zs : List Cell)
        → b.lastline ≡ last_of none (xs ++ c ∷ zs)
        → last_without b.lastline (last_of none xs) zs ≡ last_of none (xs ++ zs)
    last [] e = sym (last_of-append none xs [])
    last (z ∷ zs) e =
        e ∙ last_of-append none xs (c ∷ z ∷ zs) ∙ sym (last_of-append none xs (z ∷ zs))

not_sole :
    (p : Ptr) (a : ℕ) (xs : List Cell)
    → (same_ptr p none && same_ptr (last_of (some a) xs) none) ≡ false
unfolding same_ptr
not_sole none a [] = refl
not_sole (some q) a [] = refl
not_sole p a (x ∷ xs) = not_sole p x.addr xs

-- No mark is on the line at `c`.
abbrev pub Unmarked : Buffer → Cell → Type 0
Unmarked b c =
    (same_ptr (some c.addr) b.mark_begin ≡ false) × (same_ptr (some c.addr) b.mark_end ≡ false)

other_last :
    (a w : ℕ) (xs : List Cell)
    → (a == w) ≡ false
    → has a xs ≡ false
    → same_ptr (some a) (last_of (some w) xs) ≡ false
unfolding same_ptr
other_last a w [] h k = h
other_last a w (x ∷ xs) h k = other_last a x.addr xs (ground arith) (ground arith)

other_mark : (a : ℕ) (mark : Ptr) → same_ptr mark (some a) ≡ false → same_ptr (some a) mark ≡ false
unfolding same_ptr
other_mark a none h = refl
other_mark a (some m) h = ground arith

adjust_mark-off :
    (mark : Ptr) (xs ys : List Cell) (c : Cell)
    → distinct (xs ++ c ∷ ys) ≡ true
    → same_ptr
        (some c.addr)
        (adjust_mark mark (some c.addr) (line_of (last_of none xs) c (head_of ys none)))
      ≡ false
unfolding adjust_mark
adjust_mark-off mark xs ys c d = elim (Bool-cases (same_ptr mark (some c.addr))) [
  | inr h ↦ rw h (other_mark c.addr mark h)
  | inl h ↦ rw h (beside ys (distinct-cons c ys (distinct-append xs (c ∷ ys) d).1).0)
]
  where
    front :
        (zs : List Cell) → has c.addr zs ≡ false → same_ptr (some c.addr) (last_of none zs) ≡ false
    front [] o = unfold same_ptr in refl
    front (z ∷ zs) o = other_last c.addr z.addr zs (ground arith) (ground arith)

    beside :
        (zs : List Cell)
        → has c.addr zs ≡ false
        → same_ptr
            (some c.addr)
            (elim (head_of zs none) as (λ _. Ptr) [ some n ↦ some n | none ↦ last_of none xs ])
          ≡ false
    beside [] o = front xs (out_front xs (c ∷ ys) c.addr d (has_here c ys))
    beside (z ∷ zs) o = unfold same_ptr in ground arith

off_line :
    (b : Buffer) (xs ys : List Cell) (c : Cell)
    → distinct (xs ++ c ∷ ys) ≡ true
    → Unmarked (without_line b xs c ys) c
unfolding adjust_marks
off_line b xs ys c d =
    (adjust_mark-off b.mark_begin xs ys c d, adjust_mark-off b.mark_end xs ys c d)

-- The line at `c` goes, and the buffer shows the rest of the text, in its order; the only line of a
-- text is emptied instead; the cursor variables stay, and no mark is on that line any more. No null or
-- freed pointer is followed.
pub delete_line_lem :
    (b : Buffer) (xs ys : List Cell) (c : Cell)
    → Shows b (xs ++ c ∷ ys)
    → (b' : Buffer) × (delete_line b (some c.addr) ≡ some b')
      × Shows b' (deleted_lines xs c ys)
      × SameCursor b b'
      × Unmarked b' c
unfolding delete_line deref same_ptr empty_line modify put_line clear_mark adjust_marks
delete_line_lem b [] [] c sh = (
  clear_mark (put_line b c.addr (line_of none (recell c []) none)),
  rw (sh.chain.0) refl,
  record {
    chain = (update_self b.store c.addr _, tt);
    first = sh.first;
    last = sh.last;
    apart = refl;
    older = sh.older;
  },
  record { line = refl; pnt = refl; ln = refl; mode = refl },
  (refl, refl),
)
delete_line_lem b [] (y ∷ ys) c sh =
    let (g, e, s) = unlink-Seg b [] (y ∷ ys) c sh.chain sh.apart in
    (
      record (without_line b [] c (y ∷ ys)) { store = g },
      rw sh.chain.0 e,
      unlinked-Shows b [] (y ∷ ys) c g sh s,
      record { line = refl; pnt = refl; ln = refl; mode = refl },
      off_line b [] (y ∷ ys) c sh.apart,
    )
delete_line_lem b (x ∷ xs) ys c sh =
    let (g, e, s) = unlink-Seg b (x ∷ xs) ys c sh.chain sh.apart in
    let here = (Seg-right b.store none none (x ∷ xs) (c ∷ ys) sh.chain).0 in
    (
      record (without_line b (x ∷ xs) c ys) { store = g },
      rw (here, not_sole (head_of ys none) x.addr xs) e,
      unlinked-Shows b (x ∷ xs) ys c g sh s,
      record { line = refl; pnt = refl; ln = refl; mode = refl },
      off_line b (x ∷ xs) ys c sh.apart,
    )

pub distinct-recell :
    (xs ys : List Cell) (c : Cell) (t : Bytes)
    → (distinct (xs ++ recell c t ∷ ys) ≡ distinct (xs ++ c ∷ ys))
      × ((a : ℕ) → has a (xs ++ recell c t ∷ ys) ≡ has a (xs ++ c ∷ ys))
distinct-recell [] ys c t = (refl, λ a. refl)
distinct-recell (x ∷ xs) ys c t =
    let (d, h) = distinct-recell xs ys c t in
    (rw (d, h x.addr) refl, λ a. ap (λ r. x.addr == a || r) (h a))

pub below-recell :
    (n : ℕ) (xs ys : List Cell) (c : Cell) (t : Bytes)
    → below n (xs ++ recell c t ∷ ys) ≡ below n (xs ++ c ∷ ys)
below-recell n [] ys c t = refl
below-recell n (x ∷ xs) ys c t = ap (λ r. ltb x.addr n && r) (below-recell n xs ys c t)

-- The bytes of one line are changed.
pub recell-Seg :
    (h : ℕ → Option TextLine) (xs ys : List Cell) (c : Cell) (t : Bytes)
    → distinct (xs ++ c ∷ ys) ≡ true
    → Seg h none (xs ++ c ∷ ys) none
    → Seg
        (update h c.addr (some (line_of (last_of none xs) (recell c t) (head_of ys none))))
        none
        (xs ++ recell c t ∷ ys)
        none
recell-Seg h xs ys c t d s =
    let (_, dc, _) = distinct-append xs (c ∷ ys) d in
    let cy = (distinct-cons c ys dc).0 in
    let cx = out_front xs (c ∷ ys) c.addr d (has_here c ys) in
    let v = some (line_of (last_of none xs) (recell c t) (head_of ys none)) in
    let g = update h c.addr v in
    Seg-append g none none xs (recell c t ∷ ys)
      (frame-update h c.addr v none (some c.addr) xs cx (Seg-left h none none xs (c ∷ ys) s))
      (
        update_self h c.addr v,
        frame-update h c.addr v (some c.addr) none ys cy (Seg-right h none none xs (c ∷ ys) s).1,
      )
