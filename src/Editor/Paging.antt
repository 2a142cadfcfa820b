-- ===== src/Editor/Paging.antt =====
-- The keys of bbssrc/src/edit.c that move the cursor over many lines.
use firebird_bbs.Base.{
  ℕ, zero, suc, append_assoc, ◌+◌, ◌-◌, ◌≤◌, ◌<◌, ◌≡◌, refl, sym, ap, ◌∙◌, subst, true, false, none,
  some, List, [], ◌∷◌, ◌++◌, length, length-append, arith, inl, inr,
}
use firebird_bbs.Editor.{Ptr, Buffer, same_ptr}
use firebird_bbs.Editor.Wrap.{Sign}
use firebird_bbs.Editor.Heap.{Cell, head_of, last_of, distinct, distinct-append}
use firebird_bbs.Editor.Linking.{Shows, eq_self}
use firebird_bbs.Editor.Lines.{deref-Shows}
use firebird_bbs.Editor.Deleting.{last_of-append}
use firebird_bbs.Editor.Typing.{origin_other}
use firebird_bbs.Editor.Keys.{
  place_cursor, step_back, step_forward, line_steps, back_line, forward_line, countline, min_len,
  page_up, page_down, off_origin, to_tail,
}
use firebird_bbs.Editor.Spots.{Spot, deref-Spot, Spot-next, Spot-prev, Editing, Editing-place}
use firebird_bbs.Editor.Moving.{Kept, min_len_le}

-- The lines that `back_line` and `forward_line` get to, with the number of lines that they count.
back_steps-Spot :
    (num : ℕ) (b : Buffer) (cells : List Cell) (p : Ptr) (k moved : ℕ)
    → Shows b cells
    → Spot cells p k
    → (q : Ptr) × (m : ℕ) × (line_steps step_back num b p moved ≡ some (q, m))
      × (moved ≤ m)
      × (m - moved ≤ k)
      × Spot cells q (k - (m - moved))
unfolding line_steps step_back
back_steps-Spot zero b cells p k moved sh s =
    (p, moved, refl, omega arith, omega arith, subst (Spot cells p) (omega arith) s)
back_steps-Spot (suc num) b cells p k moved sh s = elim (Spot-prev cells p k s) [
  | inl (f, z) ↦
      let (q, m, r, le, low, t) = back_steps-Spot num b cells p k moved sh s in
      (
        q,
        m,
        ap (λ x. line_steps step_back (suc num) b x moved) s.addr
            ∙ rw (← s.addr, deref-Spot b cells p k sh s, f)
                (ap (λ x. line_steps step_back num b x moved) (sym s.addr) ∙ r),
        le,
        low,
        t,
      )
  | inr (n, f, pos, t, _, _) ↦
      let (q, m, r, le, low, u) = back_steps-Spot num b cells (some n) (k - 1) (moved + 1) sh t in
      (
        q,
        m,
        ap (λ x. line_steps step_back (suc num) b x moved) s.addr
            ∙ rw (← s.addr, deref-Spot b cells p k sh s, f) r,
        omega arith,
        omega arith,
        subst (Spot cells q) (omega arith) u,
      )
]

forward_steps-Spot :
    (num : ℕ) (b : Buffer) (cells : List Cell) (p : Ptr) (k moved : ℕ)
    → Shows b cells
    → Spot cells p k
    → (q : Ptr) × (m : ℕ) × (line_steps step_forward num b p moved ≡ some (q, m))
      × (moved ≤ m)
      × Spot cells q (k + (m - moved))
unfolding line_steps step_forward
forward_steps-Spot zero b cells p k moved sh s =
    (p, moved, refl, omega arith, subst (Spot cells p) (omega arith) s)
forward_steps-Spot (suc num) b cells p k moved sh s = elim (Spot-next cells p k s) [
  | inl (f, _) ↦
      let (q, m, r, le, t) = forward_steps-Spot num b cells p k moved sh s in
      (
        q,
        m,
        ap (λ x. line_steps step_forward (suc num) b x moved) s.addr
            ∙ rw (← s.addr, deref-Spot b cells p k sh s, f)
                (ap (λ x. line_steps step_forward num b x moved) (sym s.addr) ∙ r),
        le,
        t,
      )
  | inr (n, f, t) ↦
      let (q, m, r, le, u) = forward_steps-Spot num b cells (some n) (k + 1) (moved + 1) sh t in
      (
        q,
        m,
        ap (λ x. line_steps step_forward (suc num) b x moved) s.addr
            ∙ rw (← s.addr, deref-Spot b cells p k sh s, f) r,
        omega arith,
        subst (Spot cells q) (omega arith) u,
      )
]

back_line-Spot :
    (num : ℕ) (b : Buffer) (cells : List Cell) (p : Ptr) (k : ℕ)
    → Shows b cells
    → Spot cells p k
    → (q : Ptr) × (m : ℕ) × (back_line b p num ≡ some (q, m)) × (m ≤ k) × Spot cells q (k - m)
unfolding back_line
back_line-Spot num b cells p k sh s =
    let (q, m, r, _, low, t) = back_steps-Spot num b cells p k 0 sh s in
    (q, m, r, omega arith, subst (Spot cells q) (omega arith) t)

forward_line-Spot :
    (num : ℕ) (b : Buffer) (cells : List Cell) (p : Ptr) (k : ℕ)
    → Shows b cells
    → Spot cells p k
    → (q : Ptr) × (m : ℕ) × (forward_line b p num ≡ some (q, m)) × Spot cells q (k + m)
unfolding forward_line
forward_line-Spot num b cells p k sh s =
    let (q, m, r, _, t) = forward_steps-Spot num b cells p k 0 sh s in
    (q, m, r, subst (Spot cells q) (omega arith) t)

pub page_up-Kept : (b : Buffer) (e : Editing b) → Kept (page_up b b.currline)
unfolding page_up place_cursor
page_up-Kept b e =
    let (q, m, r, low, t) = back_line-Spot 22 b e.cells b.currline b.currln e.shows e.spot in
    let pnt = min_len (length t.at.bytes) b.currpnt in
    record {
      after = place_cursor b q pnt (b.currln - m);
      runs = rw (r, deref-Spot b e.cells q (b.currln - m) e.shows t) refl;
      editing = Editing-place b e q pnt (b.currln - m) t (min_len_le (length t.at.bytes) b.currpnt);
    }

off_origin_other :
    (sign : Sign) (b : Buffer) → sign.editing ≡ false → Editing b → off_origin sign b ≡ some b
unfolding off_origin
off_origin_other sign b new e =
    rw
      (
        deref-Spot b e.cells b.currline b.currln e.shows e.spot,
        origin_other sign b (last_of none e.spot.before) new,
        origin_other sign b b.currline new,
      )
      refl

pub page_down-Kept :
    (sign : Sign) (b : Buffer) (e : Editing b)
    → sign.editing ≡ false
    → Kept (page_down sign b b.currline)
unfolding page_down place_cursor
page_down-Kept sign b e new =
    let (q, m, r, t) = forward_line-Spot 22 b e.cells b.currline b.currln e.shows e.spot in
    let pnt = min_len (length t.at.bytes) b.currpnt in
    let b1 = place_cursor b q pnt (b.currln + m) in
    let e1 = Editing-place b e q pnt (b.currln + m) t (min_len_le (length t.at.bytes) b.currpnt) in
    record {
      after = b1;
      runs =
          rw (r, deref-Spot b e.cells q (b.currln + m) e.shows t) (off_origin_other sign b1 new e1);
      editing = e1;
    }

-- The last line is none of the others.
not_last :
    (c y : Cell) (ys : List Cell)
    → distinct (c ∷ y ∷ ys) ≡ true
    → same_ptr (some c.addr) (last_of (some y.addr) ys) ≡ false
unfolding same_ptr
not_last c y [] d = ground arith
not_last c y (z ∷ ys) d = not_last c z ys (ground arith)

countline-Spot :
    (rounds : ℕ) (b : Buffer) (cells xs ys : List Cell) (c : Cell) (moved : ℕ)
    → Shows b cells
    → cells ≡ xs ++ c ∷ ys
    → length ys < rounds
    → (countline rounds b (some c.addr) moved ≡ some (moved + length ys))
      × Spot cells b.lastline (length xs + length ys)
unfolding countline same_ptr
countline-Spot zero b cells xs ys c moved sh w fuel = absurd (omega arith)
countline-Spot (suc k) b cells xs [] c moved sh w fuel =
    let last : b.lastline ≡ some c.addr =
      sh.last ∙ ap (last_of none) w ∙ last_of-append none xs (c ∷ []) in
    (
      rw (ap (same_ptr (some c.addr)) last ∙ eq_self c.addr) (ap some (omega arith)),
      record { before = xs; at = c; behind = []; whole = w; addr = last; index = omega arith },
    )
countline-Spot (suc k) b cells xs (y ∷ ys) c moved sh w fuel =
    let sh1 = subst (Shows b) w sh in
    let (_, d, _) = distinct-append xs (c ∷ y ∷ ys) sh1.apart in
    let last : b.lastline ≡ last_of (some y.addr) ys =
      sh.last ∙ ap (last_of none) w ∙ last_of-append none xs (c ∷ y ∷ ys) in
    let more : same_ptr (some c.addr) b.lastline ≡ false =
      ap (same_ptr (some c.addr)) last ∙ not_last c y ys d in
    let (r, s) =
      countline-Spot k b cells (xs ++ c ∷ []) ys y (moved + 1) sh
        (w ∙ sym (append_assoc xs (c ∷ []) (y ∷ ys))) (omega arith) in
    (
      rw (more, deref-Shows b xs (y ∷ ys) c sh1) (r ∙ ap some (omega arith)),
      subst (Spot cells b.lastline) (omega (arith, length-append xs (c ∷ []))) s,
    )

pub to_tail-Kept :
    (sign : Sign) (rounds : ℕ) (b : Buffer) (e : Editing b)
    → sign.editing ≡ false
    → length e.cells ≤ rounds
    → Kept (to_tail sign rounds b)
unfolding to_tail place_cursor
to_tail-Kept sign rounds b e new fuel = go e.cells refl
  where
    go : (cs : List Cell) → e.cells ≡ cs → Kept (to_tail sign rounds b)
    go [] w = absurd (
        omega (
          arith,
          ap length (sym w ∙ e.spot.whole),
          length-append e.spot.before (e.spot.at ∷ e.spot.behind),
        ))
    go (c ∷ cs) w =
        let (r, s0) =
          countline-Spot rounds b e.cells [] cs c 0 e.shows w (omega (arith, ap length w)) in
        let s : Spot e.cells b.lastline (length cs) =
          subst (Spot e.cells b.lastline) (omega arith) s0 in
        let front : b.firstline ≡ some c.addr = e.shows.first ∙ ap (λ x. head_of x none) w in
        let count : countline rounds b b.firstline 0 ≡ some (length cs) =
          ap (λ p. countline rounds b p 0) front ∙ r ∙ ap some (omega arith) in
        record {
          after = place_cursor b b.lastline 0 (length cs);
          runs =
              rw
                (
                  count,
                  deref-Spot b e.cells b.lastline (length cs) e.shows s,
                  origin_other sign b (last_of none s.before) new,
                )
                refl;
          editing = Editing-place b e b.lastline 0 (length cs) s (omega arith);
        }
