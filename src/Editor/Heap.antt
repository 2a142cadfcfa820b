-- ===== src/Editor/Heap.antt =====
-- Lines of bbssrc/src/edit.c in the heap: what a doubly linked list stands for.
use firebird_bbs.Base.Text.{Bytes}
use firebird_bbs.Base.Maps.{update, update_self}
use firebird_bbs.Base.{
  ℕ, ◌+◌, ◌≡◌, refl, sym, ap, ◌∙◌, Bool, true, false, ◌||◌, ◌&&◌, not, Option, some, List, [], ◌∷◌,
  ◌++◌, ltb, ◌==◌, length, arith,
}
use firebird_bbs.Editor.{Ptr, TextLine}

-- A line of the text: where it is in the heap, its bytes, and its mark.
pub record Cell : Type 0 where
  pub addr : ℕ
  pub bytes : Bytes
  pub marked : ℕ

abbrev pub has : ℕ → List Cell → Bool
has a [] = false
has a (c ∷ cs) = c.addr == a || has a cs

-- The address of the first cell, and of the last one.
abbrev pub head_of : List Cell → Ptr → Ptr
head_of [] after = after
head_of (c ∷ cs) after = some c.addr

abbrev pub last_of : Ptr → List Cell → Ptr
last_of before [] = before
last_of before (c ∷ cs) = last_of (some c.addr) cs

abbrev pub line_of : Ptr → Cell → Ptr → TextLine
line_of before c after = record {
  prev = before;
  next = after;
  len = length c.bytes;
  attr = c.marked;
  text = c.bytes;
}

-- The heap holds the cells, linked in this order behind `before` and in front of `after`.
abbrev pub Seg : (ℕ → Option TextLine) → Ptr → List Cell → Ptr → Type 0
Seg h before [] after = Unit
Seg h before (c ∷ cs) after =
    (h c.addr ≡ some (line_of before c (head_of cs after))) × Seg h (some c.addr) cs after

abbrev pub distinct : List Cell → Bool
distinct [] = true
distinct (c ∷ cs) = not (has c.addr cs) && distinct cs

-- All addresses are below `n`.
abbrev pub below : ℕ → List Cell → Bool
below n [] = true
below n (c ∷ cs) = ltb c.addr n && below n cs

pub below-append : (n : ℕ) (xs ys : List Cell) → below n (xs ++ ys) ≡ (below n xs && below n ys)
below-append n [] ys = refl
below-append n (x ∷ xs) ys = ground (arith, below-append n xs ys)

-- An address that is not below `n` is not among addresses that are.
pub fresh_out : (n : ℕ) (cs : List Cell) → below n cs ≡ true → has n cs ≡ false
fresh_out n [] h = refl
fresh_out n (c ∷ cs) h = ground (arith, fresh_out n cs)

pub below-suc : (n : ℕ) (cs : List Cell) → below n cs ≡ true → below (n + 1) cs ≡ true
below-suc n [] h = refl
below-suc n (c ∷ cs) h = ground (arith, below-suc n cs)

-- A segment only depends on the heap at its own addresses.
pub frame :
    (h g : ℕ → Option TextLine) (before after : Ptr) (cs : List Cell)
    → ((a : ℕ) → has a cs ≡ true → g a ≡ h a)
    → Seg h before cs after
    → Seg g before cs after
frame h g before after [] same s = s
frame h g before after (c ∷ cs) same (e, s) = (
  same c.addr (ground arith) ∙ e,
  frame h g (some c.addr) after cs (λ a i. same a (ground arith)) s,
)

pub frame-update :
    (h : ℕ → Option TextLine) (p : ℕ) (v : Option TextLine) (before after : Ptr) (cs : List Cell)
    → has p cs ≡ false
    → Seg h before cs after
    → Seg (update h p v) before cs after
unfolding update
frame-update h p v before after cs out s =
    frame h (update h p v) before after cs (λ a i. ground arith) s

pub has-append : (a : ℕ) (xs ys : List Cell) → has a (xs ++ ys) ≡ (has a xs || has a ys)
has-append a [] ys = refl
has-append a (x ∷ xs) ys = ground (arith, has-append a xs ys)

pub Seg-append :
    (h : ℕ → Option TextLine) (before after : Ptr) (xs ys : List Cell)
    → Seg h before xs (head_of ys after)
    → Seg h (last_of before xs) ys after
    → Seg h before (xs ++ ys) after
Seg-append h before after [] ys s t = t
Seg-append h before after (x ∷ xs) ys (e, s) t =
    (ground (arith, e, head_of-append xs ys after), Seg-append h (some x.addr) after xs ys s t)
  where
    head_of-append :
        (xs ys : List Cell) (after : Ptr) → head_of (xs ++ ys) after ≡ head_of xs (head_of ys after)
    head_of-append [] ys after = refl
    head_of-append (x ∷ xs) ys after = refl

pub Seg-left :
    (h : ℕ → Option TextLine) (before after : Ptr) (xs ys : List Cell)
    → Seg h before (xs ++ ys) after
    → Seg h before xs (head_of ys after)
Seg-left h before after [] ys s = tt
Seg-left h before after (x ∷ []) ys (e, s) = (e, tt)
Seg-left h before after (x ∷ y ∷ xs) ys (e, s) = (e, Seg-left h (some x.addr) after (y ∷ xs) ys s)

pub Seg-right :
    (h : ℕ → Option TextLine) (before after : Ptr) (xs ys : List Cell)
    → Seg h before (xs ++ ys) after
    → Seg h (last_of before xs) ys after
Seg-right h before after [] ys s = s
Seg-right h before after (x ∷ xs) ys (e, s) = Seg-right h (some x.addr) after xs ys s

pub distinct-append :
    (xs ys : List Cell)
    → distinct (xs ++ ys) ≡ true
    → (distinct xs ≡ true) × (distinct ys ≡ true) × ((a : ℕ) → has a xs ≡ true → has a ys ≡ false)
distinct-append [] ys d = (refl, d, λ a i. absurd (cc))
distinct-append (x ∷ xs) ys d =
    let split = has-append x.addr xs ys in
    let (l, r, apart) = distinct-append xs ys (ground arith) in
    (ground arith, r, λ a i. ground (arith, apart a))

pub append-distinct :
    (xs ys : List Cell)
    → distinct xs ≡ true
    → distinct ys ≡ true
    → ((a : ℕ) → has a xs ≡ true → has a ys ≡ false)
    → distinct (xs ++ ys) ≡ true
append-distinct [] ys d e apart = e
append-distinct (x ∷ xs) ys d e apart =
    let split = has-append x.addr xs ys in
    let out = apart x.addr (ground arith) in
    let rest = append-distinct xs ys (ground arith) e (λ a i. apart a (ground arith)) in
    ground arith

pub distinct-cons :
    (x : Cell) (xs : List Cell)
    → distinct (x ∷ xs) ≡ true
    → (has x.addr xs ≡ false) × (distinct xs ≡ true)
distinct-cons x xs d = (ground arith, ground arith)

pub apart_of : (a w : ℕ) (cs : List Cell) → has a cs ≡ false → has w cs ≡ true → (a == w) ≡ false
apart_of a w [] o i = absurd (cc)
apart_of a w (c ∷ cs) o i = ground (arith, apart_of a w cs)

pub last_has :
    (before : Ptr) (w : ℕ) (x : Cell) (xs : List Cell)
    → last_of before (x ∷ xs) ≡ some w
    → has w (x ∷ xs) ≡ true
last_has before w x [] e = ground arith
last_has before w x (y ∷ xs) e = ground (arith, last_has (some x.addr) w y xs e)

pub last_line :
    (h : ℕ → Option TextLine) (before after : Ptr) (x : Cell) (xs : List Cell)
    → Seg h before (x ∷ xs) after
    → (w : ℕ) × (l : TextLine) × (last_of before (x ∷ xs) ≡ some w) × (h w ≡ some l)
last_line h before after x [] (e, s) = (x.addr, line_of before x after, refl, e)
last_line h before after x (y ∷ xs) (e, s) = last_line h (some x.addr) after y xs s

-- The last line of a segment is given another successor.
pub relink_last :
    (h : ℕ → Option TextLine) (before after other : Ptr) (w : ℕ) (l : TextLine) (x : Cell)
    (xs : List Cell)
    → distinct (x ∷ xs) ≡ true
    → last_of before (x ∷ xs) ≡ some w
    → h w ≡ some l
    → Seg h before (x ∷ xs) after
    → Seg (update h w (some (record l { next = other }))) before (x ∷ xs) other
unfolding update
relink_last h before after other w l x [] d e n (p, s) =
    let at_w : x.addr ≡ w = ground arith in
    let is : l ≡ line_of before x after = some_inj (sym n ∙ ap h (sym at_w) ∙ p) in
    (rw (is, ← at_w) (update_self h x.addr (some (line_of before x other))), tt)
  where
    some_inj : {a b : TextLine} → ◌≡◌ {A = Option TextLine} (some a) (some b) → a ≡ b
    some_inj q = cc
relink_last h before after other w l x (y ∷ xs) d e n (p, s) =
    let in_rest = last_has (some x.addr) w y xs e in
    let ne = apart_of x.addr w (y ∷ xs) (distinct-cons x (y ∷ xs) d).0 in_rest in
    (rw ne p, relink_last h (some x.addr) after other w l y xs (distinct-cons x (y ∷ xs) d).1 e n s)

-- The first line of a segment is given another predecessor.
pub relink_first :
    (h : ℕ → Option TextLine) (before after other : Ptr) (y : Cell) (ys : List Cell)
    → distinct (y ∷ ys) ≡ true
    → Seg h before (y ∷ ys) after
    → Seg (update h y.addr (some (line_of other y (head_of ys after)))) other (y ∷ ys) after
unfolding update
relink_first h before after other y ys d (p, s) =
    (ground arith, frame-update h y.addr _ (some y.addr) after ys (ground arith) s)
