-- ===== src/Editor/Unlinking.antt =====
-- How a line is taken out of the list of bbssrc/src/edit.c.
use firebird_bbs.Base.Maps.{update, update_ne}
use firebird_bbs.Base.{
  ℕ, ◌≡◌, refl, ap, ◌∙◌, true, false, Option, none, some, List, [], ◌∷◌, ◌++◌, arith, length,
}
use firebird_bbs.Editor.{
  Ptr, TextLine, Buffer, put_line, relink_next, relink_prev, adjust_mark, adjust_marks, unlink,
  free,
}
use firebird_bbs.Editor.Heap.{
  Cell, has, head_of, last_of, line_of, Seg, distinct, frame, frame-update, Seg-append, Seg-left,
  Seg-right, distinct-append, distinct-cons, relink_last, relink_first, last_line, last_has,
}
use firebird_bbs.Editor.Linking.{modify-some, has_here, out_front}

-- The heap of one buffer differs from another's only at the addresses of these cells.
abbrev pub SameElsewhere : List Cell → (ℕ → Option TextLine) → (ℕ → Option TextLine) → Type 0
SameElsewhere cs h g = (a : ℕ) → has a cs ≡ false → g a ≡ h a

abbrev pub last_without : Ptr → Ptr → List Cell → Ptr
last_without old new [] = new
last_without old new (y ∷ ys) = old

relink_next-Seg :
    (b : Buffer) (before new : Ptr) (ys : List Cell)
    → Seg b.store before ys none
    → distinct ys ≡ true
    → (g : (ℕ → Option TextLine)) × (relink_next b (head_of ys none) new
        ≡ some (record b { store = g; lastline = last_without b.lastline new ys }))
      × Seg g new ys none
      × SameElsewhere ys b.store g
unfolding relink_next
relink_next-Seg b before new [] s d = (b.store, refl, tt, λ a o. refl)
relink_next-Seg b before new (y ∷ ys) s d = (
  update b.store y.addr (some (line_of new y (head_of ys none))),
  modify-some b y.addr (line_of before y (head_of ys none)) (λ x. record x { prev = new }) s.0
      ∙ unfold put_line in refl,
  relink_first b.store before none new y ys d s,
  λ a o. update_ne b.store y.addr _ a (ground arith),
)

relink_prev-Seg :
    (b : Buffer) (after new : Ptr) (xs : List Cell)
    → Seg b.store none xs after
    → distinct xs ≡ true
    → (g : (ℕ → Option TextLine)) × (relink_prev b (last_of none xs) new
        ≡ some (record b { store = g; firstline = last_without b.firstline new xs }))
      × Seg g none xs new
      × SameElsewhere xs b.store g
unfolding relink_prev
relink_prev-Seg b after new [] s d = (b.store, refl, tt, λ a o. refl)
relink_prev-Seg b after new (x ∷ xs) s d =
    let (w, l, lw, e) = last_line b.store none after x xs s in
    let inside = last_has none w x xs lw in
    (
      update b.store w (some (record l { next = new })),
      rw lw (modify-some b w l (λ x. record x { next = new }) e ∙ unfold put_line in refl),
      relink_last b.store none after new w l x xs d lw e s,
      λ a o.
          update_ne b.store w _ a (λ q.
            absurd (let i : has a (x ∷ xs) ≡ true = ap (λ k. has k (x ∷ xs)) q ∙ inside in cc)),
    )

-- `b` after the line `c` between `xs` and `ys` has been taken out, but for the heap.
abbrev pub without_line : Buffer → List Cell → Cell → List Cell → Buffer
without_line b xs c ys =
    record (adjust_marks b (some c.addr) (line_of (last_of none xs) c (head_of ys none))) {
      firstline = last_without b.firstline (head_of ys none) xs;
      lastline = last_without b.lastline (last_of none xs) ys;
    }

Seg-elsewhere :
    (h g : ℕ → Option TextLine) (before after : Ptr) (cs other : List Cell)
    → SameElsewhere other h g
    → ((a : ℕ) → has a cs ≡ true → has a other ≡ false)
    → Seg h before cs after
    → Seg g before cs after
Seg-elsewhere h g before after cs other same apart s =
    frame h g before after cs (λ a i. same a (apart a i)) s

-- The line that goes may have any length.
pub unlink_parts-Seg :
    (b : Buffer) (xs ys : List Cell) (c : Cell) (n : ℕ)
    → Seg b.store none xs (some c.addr)
    → Seg b.store (some c.addr) ys none
    → distinct (xs ++ c ∷ ys) ≡ true
    → (g : (ℕ → Option TextLine)) × (unlink b
          (some c.addr)
          (record (line_of (last_of none xs) c (head_of ys none)) { len = n })
        ≡ some (record (without_line b xs c ys) { store = g }))
      × Seg g none (xs ++ ys) none
unfolding unlink adjust_marks adjust_mark free
unlink_parts-Seg b xs ys c n front back d =
    let (dx, dcy, apart) = distinct-append xs (c ∷ ys) d in
    let (cy, dy) = distinct-cons c ys dcy in
    let cx = out_front xs (c ∷ ys) c.addr d (has_here c ys) in
    let l = record (line_of (last_of none xs) c (head_of ys none)) { len = n } in
    let b0 = adjust_marks b (some c.addr) l in
    let (g1, e1, s1, same1) = relink_next-Seg b0 (some c.addr) (last_of none xs) ys back dy in
    let front1 =
      Seg-elsewhere b.store g1 none (some c.addr) xs ys same1
        (λ a i. let o = apart a i in ground arith) front in
    let b1 = record b0 { store = g1; lastline = last_without b0.lastline (last_of none xs) ys } in
    let (g2, e2, s2, same2) = relink_prev-Seg b1 (some c.addr) (head_of ys none) xs front1 dx in
    let back2 =
      Seg-elsewhere g1 g2 (last_of none xs) none ys xs same2
        (λ a i. out_front xs (c ∷ ys) a d (ground arith)) s1 in
    let g = update g2 c.addr none in
    (
      g,
      rw (e1, e2) refl,
      Seg-append g none none xs ys (frame-update g2 c.addr none none (head_of ys none) xs cx s2)
          (frame-update g2 c.addr none (last_of none xs) none ys cy back2),
    )

pub unlink-Seg :
    (b : Buffer) (xs ys : List Cell) (c : Cell)
    → Seg b.store none (xs ++ c ∷ ys) none
    → distinct (xs ++ c ∷ ys) ≡ true
    → (g : (ℕ → Option TextLine)) × (unlink b
          (some c.addr)
          (line_of (last_of none xs) c (head_of ys none))
        ≡ some (record (without_line b xs c ys) { store = g }))
      × Seg g none (xs ++ ys) none
unlink-Seg b xs ys c s d =
    unlink_parts-Seg b xs ys c (length c.bytes) (Seg-left b.store none none xs (c ∷ ys) s)
      (Seg-right b.store none none xs (c ∷ ys) s).1 d
