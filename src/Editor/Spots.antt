-- ===== src/Editor/Spots.antt =====
-- Where the cursor of bbssrc/src/edit.c is in a text.
use firebird_bbs.Base.Text.{Bytes}
use firebird_bbs.Base.{
  ℕ, ◌+◌, ◌-◌, ◌≤◌, ◌≡◌, refl, sym, ap, ◌∙◌, subst, true, ◌&&◌, none, some, List, [], ◌∷◌, ◌++◌,
  append_assoc, length, length-append, arith, inl, inr, ◌⊎◌,
}
use firebird_bbs.Editor.{Ptr, TextLine, Buffer, deref}
use firebird_bbs.Editor.Heap.{Cell, head_of, last_of, line_of}
use firebird_bbs.Editor.Linking.{Shows}
use firebird_bbs.Editor.Deleting.{last_of-append}
use firebird_bbs.Editor.Lines.{deref-Shows}
use firebird_bbs.Editor.Flowing.{texts, short}

-- `p` is line number `k` of the text, counted from 0.
pub record Spot (cells : List Cell) (p : Ptr) (k : ℕ) : Type 0 where
  pub before : List Cell
  pub at : Cell
  pub behind : List Cell
  pub whole : cells ≡ before ++ at ∷ behind
  pub addr : p ≡ some at.addr
  pub index : length before ≡ k

-- The line at a spot, as it is in the heap.
abbrev pub here : {cells : List Cell} {p : Ptr} {k : ℕ} → Spot cells p k → TextLine
here s = line_of (last_of none s.before) s.at (head_of s.behind none)

pub deref-Spot :
    (b : Buffer) (cells : List Cell) (p : Ptr) (k : ℕ)
    → Shows b cells
    → (s : Spot cells p k) → deref b p ≡ some (here s)
deref-Spot b cells p k sh s =
    ap (deref b) s.addr ∙ deref-Shows b s.before s.behind s.at (subst (Shows b) s.whole sh)

pub Spot-next :
    (cells : List Cell) (p : Ptr) (k : ℕ)
    → (s : Spot cells p k)
    → ((head_of s.behind none ≡ none) × (length cells ≡ k + 1))
      ⊎ ((n : ℕ) × (head_of s.behind none ≡ some n) × Spot cells (some n) (k + 1))
Spot-next cells p k s = go s.behind s.whole
  where
    go :
        (ys : List Cell)
        → cells ≡ s.before ++ s.at ∷ ys
        → ((head_of ys none ≡ none) × (length cells ≡ k + 1))
          ⊎ ((n : ℕ) × (head_of ys none ≡ some n) × Spot cells (some n) (k + 1))
    go [] e = inl (refl, ap length e ∙ omega (arith, s.index, length-append s.before (s.at ∷ [])))
    go (y ∷ ys) e = inr (
      y.addr,
      refl,
      record {
        before = s.before ++ s.at ∷ [];
        at = y;
        behind = ys;
        whole = e ∙ sym (append_assoc s.before (s.at ∷ []) (y ∷ ys));
        addr = refl;
        index = omega (arith, s.index, length-append s.before (s.at ∷ []));
      },
    )

-- A list is empty or has a last element.
pub snoc_view : (xs : List Cell) → (xs ≡ []) ⊎ ((zs : List Cell) × (z : Cell) × (xs ≡ zs ++ z ∷ []))
snoc_view [] = inl refl
snoc_view (x ∷ xs) = elim (snoc_view xs) [
  | inl e ↦ inr ([], x, ap (◌∷◌ x) e)
  | inr (zs, z, e) ↦ inr (x ∷ zs, z, ap (◌∷◌ x) e)
]

pub Spot-prev :
    (cells : List Cell) (p : Ptr) (k : ℕ)
    → (s : Spot cells p k)
    → ((last_of none s.before ≡ none) × (k ≡ 0))
      ⊎ ((n : ℕ) × (last_of none s.before ≡ some n)
          × (1 ≤ k)
          × (t : Spot cells (some n) (k - 1)) × (head_of t.behind none ≡ p)
          × (s.before ≡ t.before ++ t.at ∷ []))
Spot-prev cells p k s = elim (snoc_view s.before) [
  | inl e ↦ inl (ap (last_of none) e, sym s.index ∙ ap length e)
  | inr (zs, z, e) ↦
      let n : length zs + 1 ≡ k = omega (arith, s.index, length-append zs (z ∷ []), ap length e) in
      inr (
        z.addr,
        ap (last_of none) e ∙ last_of-append none zs (z ∷ []),
        omega arith,
        record {
          before = zs;
          at = z;
          behind = s.at ∷ s.behind;
          whole =
              s.whole
              ∙ ap (λ xs. xs ++ s.at ∷ s.behind) e
              ∙ append_assoc zs (z ∷ []) (s.at ∷ s.behind);
          addr = refl;
          index = omega arith;
        },
        sym s.addr,
        e,
      )
]

-- The first line, of a text that is not empty, and the last one.
pub Spot-first : (c : Cell) (cs : List Cell) → Spot (c ∷ cs) (some c.addr) 0
Spot-first c cs = record {
  before = [];
  at = c;
  behind = cs;
  whole = refl;
  addr = refl;
  index = refl;
}

pub short-append : (xs ys : List Bytes) → short (xs ++ ys) ≡ (short xs && short ys)
short-append [] ys = refl
short-append (x ∷ xs) ys = ground (arith, short-append xs ys)

pub texts-append : (xs ys : List Cell) → texts (xs ++ ys) ≡ texts xs ++ texts ys
texts-append [] ys = refl
texts-append (x ∷ xs) ys = ap (◌∷◌ x.bytes) (texts-append xs ys)

pub short-texts-append :
    (xs ys : List Cell) → short (texts (xs ++ ys)) ≡ (short (texts xs) && short (texts ys))
short-texts-append xs ys = ap short (texts-append xs ys) ∙ short-append (texts xs) (texts ys)

-- What every key keeps: the heap shows a text of which every line fits its array, and the cursor is
-- in a line of it, whose number is `currln`.
pub record Editing (b : Buffer) : Type 0 where
  pub cells : List Cell
  pub shows : Shows b cells
  pub spot : Spot cells b.currline b.currln
  pub pnt_in : b.currpnt ≤ length spot.at.bytes
  pub small : short (texts cells) ≡ true

-- The same text with the cursor at another place.
pub Shows-place :
    (b : Buffer) (cells : List Cell) (q : Ptr) (pnt ln : ℕ)
    → Shows b cells
    → Shows (record b { currline = q; currpnt = pnt; currln = ln }) cells
Shows-place b cells q pnt ln sh = record {
  chain = sh.chain;
  first = sh.first;
  last = sh.last;
  apart = sh.apart;
  older = sh.older;
}

pub Editing-place :
    (b : Buffer) (e : Editing b) (q : Ptr) (pnt ln : ℕ)
    → (s : Spot e.cells q ln) → pnt ≤ length s.at.bytes
    → Editing (record b { currline = q; currpnt = pnt; currln = ln })
Editing-place b e q pnt ln s h = record {
  cells = e.cells;
  shows = Shows-place b e.cells q pnt ln e.shows;
  spot = s;
  pnt_in = h;
  small = e.small;
}
