-- ===== src/Editor/Killing.antt =====
-- The enter key and Ctrl-K of bbssrc/src/edit.c.
use firebird_bbs.Base.Text.{Bytes}
use firebird_bbs.Base.{
  ℕ, append-nil, ◌+◌, ◌-◌, ◌≤◌, ◌≡◌, refl, ap, ◌∙◌, true, false, ◌&&◌, Option, none, some, List, [],
  ◌∷◌, ◌++◌, leb, ◌==◌, if◌then◌else◌, length, length-append, arith, Bool-cases, inl, inr, take,
  drop, length-take, length-drop,
}
use firebird_bbs.Editor.{
  TextLine, Buffer, same_ptr, deref, modify, split, follow_split, delete_line, adjust_marks,
}
use firebird_bbs.Editor.Wrap.{Sign}
use firebird_bbs.Editor.Heap.{Cell, head_of, last_of, line_of, Seg, Seg-left, Seg-right}
use firebird_bbs.Editor.Linking.{Shows, SameCursor, last_after}
use firebird_bbs.Editor.Unlinking.{without_line, unlink_parts-Seg}
use firebird_bbs.Editor.Splitting.{split_followed, tail_cell}
use firebird_bbs.Editor.Deleting.{last_of-append, recell, unlinked-Shows}
use firebird_bbs.Editor.Lines.{recell-Shows, follow-Shows}
use firebird_bbs.Editor.Flowing.{texts, short}
use firebird_bbs.Editor.Typing.{origin_other, cursor_moves}
use firebird_bbs.Editor.Keys.{kill_line, kill_rest, kill_to_end}
use firebird_bbs.Editor.Spots.{
  here, deref-Spot, Spot-next, Spot-prev, snoc_view, Shows-place, short-texts-append, Editing,
}
use firebird_bbs.Editor.Moving.{Kept}
use firebird_bbs.Editor.Changing.{
  around, small_around, Editing-cells, Editing-second, join_down-Kept,
}

short_cut :
    (pos : ℕ) (t : Bytes) (ts : List Bytes)
    → short (t ∷ ts) ≡ true
    → short (take pos t ∷ drop pos t ∷ ts) ≡ true
short_cut pos t ts h =
    let u : length (take pos t) ≤ length t = omega (arith, length-take pos t) in
    let v : length (drop pos t) ≤ length t = omega (arith, length-drop pos t) in ground arith

short_take :
    (n : ℕ) (t : Bytes) (ts : List Bytes) → short (t ∷ ts) ≡ true → short (take n t ∷ ts) ≡ true
short_take n t ts h =
    let u : length (take n t) ≤ length t = omega (arith, length-take n t) in ground arith

pub split-Kept : (b : Buffer) (e : Editing b) → Kept (split b b.currline b.currpnt)
split-Kept b e =
    let c = e.spot.at in
    let ys = e.spot.behind in
    let pos = b.currpnt in
    let small = (small_around b e).1 in
    let (g, (r, sh)) = split_followed b e.spot.before ys c pos (around b e) e.pnt_in in
    let b4 = record b {
      store = g;
      fresh = b.fresh + 1;
      lastline = last_after b.lastline b.fresh ys;
    } in
    let b' = follow_split b4 (some c.addr) pos b.fresh in
    let front = recell c (take pos c.bytes) in
    let n = tail_cell c pos b.fresh in
    let (l, p, k) = cursor_moves b4 c.addr pos b.fresh front (n ∷ ys) e.spot.addr refl refl in
    let at_pos : leb pos pos ≡ true = ground arith in
    let pnt : b'.currpnt ≡ 0 = p ∙ rw at_pos (omega arith) in
    let fits : short (texts (front ∷ n ∷ ys)) ≡ true = short_cut pos c.bytes (texts ys) small in
    record {
      after = b';
      runs = ap (λ q. split b q pos) e.spot.addr ∙ r;
      editing =
          Editing-second b b' e (front ∷ n ∷ ys) front n ys
            (follow-Shows b4 _ (some c.addr) pos b.fresh sh) refl (l ∙ rw at_pos refl)
            (k ∙ rw at_pos refl) (omega arith) fits;
    }

-- A line goes that is not the only one; its length does not matter.
pub delete_dead-Shows :
    (b : Buffer) (xs ys : List Cell) (c : Cell) (h : ℕ → Option TextLine) (n : ℕ)
    → Shows b (xs ++ c ∷ ys)
    → Seg h none xs (some c.addr)
    → Seg h (some c.addr) ys none
    → h c.addr ≡ some (record (line_of (last_of none xs) c (head_of ys none)) { len = n })
    → (same_ptr (head_of ys none) none && same_ptr (last_of none xs) none) ≡ false
    → (b' : Buffer) × (delete_line (record b { store = h }) (some c.addr) ≡ some b')
      × Shows b' (xs ++ ys)
      × SameCursor b b'
unfolding delete_line deref adjust_marks
delete_dead-Shows b xs ys c h n sh front back at linked =
    let b0 = record b { store = h } in
    let (g, e, s) = unlink_parts-Seg b0 xs ys c n front back sh.apart in
    (
      record (without_line b xs c ys) { store = g },
      rw (at, linked) e,
      unlinked-Shows b xs ys c g sh s,
      record { line = refl; pnt = refl; ln = refl; mode = refl },
    )

-- A text of two lines has a line beside each.
pub not_alone :
    (b : Buffer) (e : Editing b)
    → 2 ≤ length e.cells
    → ((same_ptr (last_of none e.spot.before) none && same_ptr (head_of e.spot.behind none) none)
        ≡ false)
      × ((same_ptr (head_of e.spot.behind none) none && same_ptr (last_of none e.spot.before) none)
          ≡ false)
unfolding same_ptr
not_alone b e two = elim (Spot-next e.cells b.currline b.currln e.spot) [
  | inr (n, f, _) ↦ (rw f (ground arith), rw f refl)
  | inl (_, size) ↦ elim (Spot-prev e.cells b.currline b.currln e.spot) [
    | inl (_, z) ↦ absurd (omega arith)
    | inr (n, f, _, _, _, _) ↦ (rw f refl, rw f (ground arith))
  ]
]

-- The cursor goes to the line behind the one that has gone, or before it.
beside-Editing :
    (b : Buffer) (xs ys : List Cell) (k : ℕ)
    → Shows b (xs ++ ys)
    → length xs ≡ k
    → 1 ≤ length xs + length ys
    → b.currpnt ≡ 0
    → short (texts (xs ++ ys)) ≡ true
    → Editing (record b {
      currline = if same_ptr (head_of ys none) none then last_of none xs else head_of ys none;
      currln = if same_ptr (head_of ys none) none then k - 1 else k;
    })
unfolding same_ptr
beside-Editing b xs (y ∷ ys) k sh size one start small = record {
  cells = xs ++ y ∷ ys;
  shows = Shows-place b (xs ++ y ∷ ys) (some y.addr) b.currpnt k sh;
  spot = record { before = xs; at = y; behind = ys; whole = refl; addr = refl; index = size };
  pnt_in = omega (arith, start);
  small = small;
}
beside-Editing b xs [] k sh size one start small = elim (snoc_view xs) [
  | inl e ↦ absurd (omega (arith, ap length e))
  | inr (zs, z, e) ↦ record {
    cells = xs ++ [];
    shows = Shows-place b (xs ++ []) (last_of none xs) b.currpnt (k - 1) sh;
    spot = record {
      before = zs;
      at = z;
      behind = [];
      whole = append-nil xs ∙ e;
      addr = ap (last_of none) e ∙ last_of-append none zs (z ∷ []);
      index = omega (arith, ap length e, length-append zs (z ∷ []));
    };
    pnt_in = omega (arith, start);
    small = small;
  }
]

pub small_rest :
    (b : Buffer) (e : Editing b) → short (texts (e.spot.before ++ e.spot.behind)) ≡ true
small_rest b e =
    let (f, s) = small_around b e in
    let a = short-texts-append e.spot.before e.spot.behind in ground arith

rest_size :
    (b : Buffer) (e : Editing b)
    → 2 ≤ length e.cells
    → 1 ≤ length e.spot.before + length e.spot.behind
rest_size b e two =
    omega (arith, ap length e.spot.whole, length-append e.spot.before (e.spot.at ∷ e.spot.behind))

module _ (sign : Sign) (b : Buffer) (e : Editing b) (new : sign.editing ≡ false)
    (two : 2 ≤ length e.cells) where
  pub kill_line-Kept :
      (h : ℕ → Option TextLine) (n : ℕ)
      → Seg h none e.spot.before (some e.spot.at.addr)
      → Seg h (some e.spot.at.addr) e.spot.behind none
      → h e.spot.at.addr ≡ some (record (here e.spot) { len = n })
      → b.currpnt ≡ 0
      → Kept (kill_line sign (record b { store = h }) b.currline (record (here e.spot) { len = n }))
  unfolding kill_line
  kill_line-Kept h n front back at start =
      let c = e.spot.at in
      let (b1, r, sh, k) =
        delete_dead-Shows b e.spot.before e.spot.behind c h n (around b e) front back at
          (not_alone b e two).1 in
      let gone : delete_line (record b { store = h }) b.currline ≡ some b1 =
        ap (delete_line (record b { store = h })) e.spot.addr ∙ r in
      let q =
        if same_ptr (head_of e.spot.behind none) none
        then last_of none e.spot.before
        else head_of e.spot.behind none in
      let b2 = record b1 {
        currline = q;
        currln = if same_ptr (head_of e.spot.behind none) none then b.currln - 1 else b.currln;
      } in
      record {
        after = b2;
        runs = rw (gone, origin_other sign b2 q new) refl;
        editing =
            beside-Editing b1 e.spot.before e.spot.behind b.currln sh e.spot.index
              (rest_size b e two) (k.pnt ∙ start) (small_rest b e);
      }

  cut_line-Kept :
      Kept (modify b b.currline (λ x. record x { len = b.currpnt; text = take b.currpnt x.text }))
  cut_line-Kept =
      let c = e.spot.at in
      let t = take b.currpnt c.bytes in
      let n : length t ≡ b.currpnt = omega (arith, length-take b.currpnt c.bytes, e.pnt_in) in
      let f : TextLine → TextLine =
        λ x. record x { len = b.currpnt; text = take b.currpnt x.text } in
      let (b1, r, sh, k) =
        recell-Shows b e.spot.before e.spot.behind c t f (around b e) (λ p q. rw n refl) in
      let small = (small_around b e).1 in
      record {
        after = b1;
        runs = ap (λ p. modify b p f) e.spot.addr ∙ r;
        editing =
            Editing-cells b b1 e (recell c t ∷ e.spot.behind) (recell c t) e.spot.behind sh refl
              (k.line ∙ e.spot.addr) k.ln (omega (arith, k.pnt, n))
              (short_take b.currpnt c.bytes (texts e.spot.behind) (small_around b e).1);
      }

  kill_rest-Kept :
      (rounds : ℕ)
      → length e.cells ≤ rounds
      → Kept (kill_rest sign rounds b b.currline (here e.spot))
  unfolding kill_rest
  kill_rest-Kept rounds fuel =
      let sh = around b e in
      let n = length e.spot.at.bytes in
      elim (Bool-cases (n == 0)) [
        | inl f ↦ rw f (
            kill_line-Kept b.store n (Seg-left b.store none none e.spot.before _ sh.chain)
              (Seg-right b.store none none e.spot.before _ sh.chain).1
              (Seg-right b.store none none e.spot.before _ sh.chain).0
              (let p = e.pnt_in in ground arith))
        | inr f ↦ elim (Bool-cases (n == b.currpnt)) [
          | inl g ↦ rw (f, g) (join_down-Kept rounds b e fuel)
          | inr g ↦ rw (f, g) cut_line-Kept
        ]
      ]

  pub kill_to_end-Kept :
      (rounds : ℕ) → length e.cells ≤ rounds → Kept (kill_to_end sign rounds false b b.currline)
  unfolding kill_to_end
  kill_to_end-Kept rounds fuel =
      rw
        (
          deref-Spot b e.cells b.currline b.currln e.shows e.spot,
          origin_other sign b (head_of e.spot.behind none) new,
          (not_alone b e two).0,
        )
        (kill_rest-Kept rounds fuel)
