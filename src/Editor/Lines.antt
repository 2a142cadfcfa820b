-- ===== src/Editor/Lines.antt =====
-- What lets the lines of a text in bbssrc/src/edit.c be read and written, and where a line is broken.
use firebird_bbs.Base.Text.{Bytes}
use firebird_bbs.Base.{
  ℕ, zero, suc, ◌+◌, ◌-◌, ◌≤◌, ◌<◌, ◌≡◌, refl, sym, ap, ◌∙◌, Bool, true, false, ◌&&◌, not, none,
  some, List, [], ◌∷◌, ◌++◌, leb, if_elim, arith, Bool-cases, inl, inr, ◌⊎◌,
}
use firebird_bbs.Editor.{Ptr, TextLine, Buffer, same_ptr, deref, put_line, modify, follow_split}
use firebird_bbs.Editor.Wrap.{char_at, is_blank, back_while, line_break}
use firebird_bbs.Editor.Heap.{Cell, head_of, last_of, line_of, Seg-right}
use firebird_bbs.Editor.Linking.{Shows, SameCursor, modify-some}
use firebird_bbs.Editor.Deleting.{recell, recell-Seg, distinct-recell, below-recell, last_of-append}

back_while_le : (t : ℕ → Bool) (d : Bytes) (i : ℕ) → back_while t d i ≤ i
unfolding back_while
back_while_le t d zero = omega arith
back_while_le t d (suc i) = ground (arith, back_while_le t d i)

back_while_stop :
    (t : ℕ → Bool) (d : Bytes) (i : ℕ)
    → (back_while t d i ≡ 0) ⊎ (t (char_at d (back_while t d i)) ≡ false)
unfolding back_while
back_while_stop t d zero = inl refl
back_while_stop t d (suc i) = elim (Bool-cases (t (char_at d (suc i)))) [
  | inl e ↦ rw e (back_while_stop t d i)
  | inr e ↦ rw e (inr e)
]

back_while_before :
    (d : Bytes) (k : ℕ)
    → is_blank (char_at d k) ≡ false
    → 0 < back_while (λ x. not (is_blank x)) d k
    → back_while (λ x. not (is_blank x)) d k < k
unfolding back_while
back_while_before d zero stop h = h
back_while_before d (suc i) stop h =
    let e : not (is_blank (char_at d (suc i))) ≡ true = rw stop refl in
    rw e (omega (arith, back_while_le (λ x. not (is_blank x)) d i))

-- A line is broken in front of the index that the search starts at.
pub line_break_lt : (d : Bytes) (i : ℕ) → 0 < line_break d i → line_break d i < i
unfolding line_break
line_break_lt d i h =
    let k = back_while is_blank d i in
    let a = back_while_le is_blank d i in
    let c = back_while_le (λ x. not (is_blank x)) d k in
    elim (back_while_stop is_blank d i) [
      | inl z ↦ absurd (omega (arith, a, c, z, h))
      | inr stop ↦ omega (arith, a, back_while_before d k stop h)
    ]

Shows-cursor :
    (b : Buffer) (cs : List Cell) (p : Ptr) (pnt ln : ℕ)
    → Shows b cs
    → Shows (record b { currline = p; currpnt = pnt; currln = ln }) cs
Shows-cursor b cs p pnt ln sh = record {
  chain = sh.chain;
  first = sh.first;
  last = sh.last;
  apart = sh.apart;
  older = sh.older;
}

pub follow-Shows :
    (b : Buffer) (cs : List Cell) (line : Ptr) (pos p : ℕ)
    → Shows b cs
    → Shows (follow_split b line pos p) cs
unfolding follow_split
follow-Shows b cs line pos p sh =
    if_elim (λ x. Shows x cs) (same_ptr line b.currline && leb pos b.currpnt)
      (Shows-cursor b cs (some p) (b.currpnt - pos) (b.currln + 1) sh) sh

-- The bytes of one line are changed.
pub recell-Shows :
    (b : Buffer) (xs ys : List Cell) (c : Cell) (t : Bytes) (f : TextLine → TextLine)
    → Shows b (xs ++ c ∷ ys)
    → ((p q : Ptr) → f (line_of p c q) ≡ line_of p (recell c t) q)
    → (b' : Buffer) × (modify b (some c.addr) f ≡ some b')
      × Shows b' (xs ++ recell c t ∷ ys)
      × SameCursor b b'
unfolding put_line
recell-Shows b xs ys c t f sh is =
    let here = (Seg-right b.store none none xs (c ∷ ys) sh.chain).0 in
    let (d, h) = distinct-recell xs ys c t in
    (
      put_line b c.addr (line_of (last_of none xs) (recell c t) (head_of ys none)),
      modify-some b c.addr _ f here
          ∙ ap (λ v. some (put_line b c.addr v)) (is (last_of none xs) (head_of ys none)),
      record {
        chain = recell-Seg b.store xs ys c t sh.apart sh.chain;
        first = first xs sh.first;
        last =
            sh.last
            ∙ last_of-append none xs (c ∷ ys)
            ∙ sym (last_of-append none xs (recell c t ∷ ys));
        apart = d ∙ sh.apart;
        older = below-recell b.fresh xs ys c t ∙ sh.older;
      },
      record { line = refl; pnt = refl; ln = refl; mode = refl },
    )
  where
    first :
        (zs : List Cell)
        → b.firstline ≡ head_of (zs ++ c ∷ ys) none
        → b.firstline ≡ head_of (zs ++ recell c t ∷ ys) none
    first [] e = e
    first (z ∷ zs) e = e

pub deref-Shows :
    (b : Buffer) (xs ys : List Cell) (c : Cell)
    → Shows b (xs ++ c ∷ ys)
    → deref b (some c.addr) ≡ some (line_of (last_of none xs) c (head_of ys none))
unfolding deref
deref-Shows b xs ys c sh = (Seg-right b.store none none xs (c ∷ ys) sh.chain).0
