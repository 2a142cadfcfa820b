-- ===== src/Editor/Removing.antt =====
-- Ctrl-Y, backspace and the delete key of bbssrc/src/edit.c.
use firebird_bbs.Base.Maps.{update, update_self}
use firebird_bbs.Base.{
  ℕ, suc, append_assoc, ◌+◌, ◌-◌, ◌≤◌, ◌<◌, ◌≡◌, refl, sym, ap, ◌∙◌, true, false, ◌&&◌, none, some,
  [], ◌∷◌, ◌++◌, leb, ◌==◌, length, length-append, arith, Bool-cases, inl, inr,
}
use firebird_bbs.Editor.{TextLine, Buffer, same_ptr, deref, modify, put_line, delete_line}
use firebird_bbs.Editor.Wrap.{Sign}
use firebird_bbs.Editor.Heap.{
  head_of, last_of, line_of, Seg-left, Seg-right, frame-update, distinct-append, distinct-cons,
}
use firebird_bbs.Editor.Linking.{out_front, has_here}
use firebird_bbs.Editor.Deleting.{recell}
use firebird_bbs.Editor.Lines.{recell-Shows}
use firebird_bbs.Editor.Typing.{origin_other}
use firebird_bbs.Editor.Keys.{
  place_cursor, all_blank, backspace, empty_text, kill_rest, kill_to_end, remove_line, delete_here,
}
use firebird_bbs.Editor.Spots.{
  here, deref-Spot, Spot-next, Spot-prev, Shows-place, Editing, Editing-place,
}
use firebird_bbs.Editor.Moving.{Kept}
use firebird_bbs.Editor.Changing.{
  around, small_around, Editing-cells, join_down-Kept, delete_char-Kept,
}
use firebird_bbs.Editor.Killing.{delete_dead-Shows, not_alone, small_rest, kill_line-Kept}

-- Ctrl-Y in a text of more lines: the line is emptied and goes.
module _ (sign : Sign) (b : Buffer) (e : Editing b) (new : sign.editing ≡ false)
    (two : 2 ≤ length e.cells) where
  dead_line-Kept :
      (rounds : ℕ)
      → let b1 = record b { currpnt = 0 } in
        let l = record (here e.spot) { len = 0 } in
        Kept (kill_to_end sign rounds false (put_line b1 e.spot.at.addr l) b.currline)
  unfolding kill_to_end kill_rest put_line deref
  dead_line-Kept rounds =
      let c = e.spot.at in
      let b1 = record b { currpnt = 0 } in
      let l = record (here e.spot) { len = 0 } in
      let h = update b.store c.addr (some l) in
      let e1 : Editing b1 = record {
        cells = e.cells;
        shows = Shows-place b e.cells b.currline 0 b.currln e.shows;
        spot = e.spot;
        pnt_in = omega arith;
        small = e.small;
      } in
      let sh = around b e in
      let (_, d, _) = distinct-append e.spot.before (c ∷ e.spot.behind) sh.apart in
      let front =
        frame-update b.store c.addr (some l) none (some c.addr) e.spot.before
          (out_front e.spot.before (c ∷ e.spot.behind) c.addr sh.apart (has_here c e.spot.behind))
          (Seg-left b.store none none e.spot.before (c ∷ e.spot.behind) sh.chain) in
      let back =
        frame-update b.store c.addr (some l) (some c.addr) none e.spot.behind
          (distinct-cons c e.spot.behind d).0
          (Seg-right b.store none none e.spot.before (c ∷ e.spot.behind) sh.chain).1 in
      let at : h c.addr ≡ some l = update_self b.store c.addr (some l) in
      let found : deref (record b1 { store = h }) b.currline ≡ some l =
        ap (deref (record b1 { store = h })) e.spot.addr ∙ at in
      rw
        (
          found,
          origin_other sign (record b1 { store = h }) (head_of e.spot.behind none) new,
          (not_alone b e two).0,
        )
        (kill_line-Kept sign b1 e1 new two h 0 front back at refl)

pub remove_line-Kept :
    (sign : Sign) (rounds : ℕ) (b : Buffer) (e : Editing b)
    → sign.editing ≡ false
    → 2 ≤ length e.cells
    → Kept (remove_line sign rounds false b b.currline)
unfolding remove_line modify
remove_line-Kept sign rounds b e new two =
    let b1 = record b { currpnt = 0 } in
    let f : TextLine → TextLine = λ x. record x { len = 0 } in
    let here = deref-Spot b e.cells b.currline b.currln e.shows e.spot in
    let l = line_of (last_of none e.spot.before) e.spot.at (head_of e.spot.behind none) in
    let at : b.store e.spot.at.addr ≡ some l =
      (Seg-right b.store none none e.spot.before _ (around b e).chain).0 in
    let emptied : modify b1 b.currline f ≡ some (put_line b1 e.spot.at.addr (f l)) =
      ap (λ p. modify b1 p f) e.spot.addr ∙ rw at refl in
    rw (here, origin_other sign b (head_of e.spot.behind none) new, (not_alone b e two).0, emptied)
      (dead_line-Kept sign b e new two rounds)

-- A text of fewer than two lines has no line beside its line.
alone :
    (b : Buffer) (e : Editing b)
    → length e.cells < 2
    → (same_ptr (last_of none e.spot.before) none ≡ true)
      × (same_ptr (head_of e.spot.behind none) none ≡ true)
unfolding same_ptr
alone b e one = (
  elim (Spot-prev e.cells b.currline b.currln e.spot) [
    | inl (f, _) ↦ rw f refl
    | inr (n, f, pos, t, _, _) ↦ absurd (omega (arith, pos, e.spot.index, size))
  ],
  elim (Spot-next e.cells b.currline b.currln e.spot) [
    | inl (f, _) ↦ rw f refl
    | inr (n, f, t) ↦
        absurd (omega (arith, t.index, ap length t.whole, length-append t.before (t.at ∷ t.behind)))
  ],
)
  where
    size : length e.cells ≡ length e.spot.before + suc (length e.spot.behind)
    size = ap length e.spot.whole ∙ length-append e.spot.before (e.spot.at ∷ e.spot.behind)

-- Ctrl-Y in a text of one line empties it.
pub remove_only-Kept :
    (sign : Sign) (rounds : ℕ) (b : Buffer) (e : Editing b)
    → sign.editing ≡ false
    → length e.cells < 2
    → Kept (remove_line sign rounds false b b.currline)
unfolding remove_line empty_text
remove_only-Kept sign rounds b e new one =
    let c = e.spot.at in
    let b1 = record b { currpnt = 0 } in
    let sh = Shows-place b _ b.currline 0 b.currln (around b e) in
    let (b2, r, sh2, k) =
      recell-Shows b1 e.spot.before e.spot.behind c [] empty_text sh (λ p q. refl) in
    let small = (small_around b e).1 in
    let done : modify b1 b.currline empty_text ≡ some b2 =
      ap (λ p. modify b1 p empty_text) e.spot.addr ∙ r in
    record {
      after = b2;
      runs =
          rw
            (
              deref-Spot b e.cells b.currline b.currln e.shows e.spot,
              origin_other sign b (head_of e.spot.behind none) new,
              (alone b e one).0,
              (alone b e one).1,
            )
            done;
      editing =
          Editing-cells b b2 e (recell c [] ∷ e.spot.behind) (recell c []) e.spot.behind sh2 refl
            (k.line ∙ e.spot.addr) k.ln (omega (arith, k.pnt)) (ground arith);
    }

pub delete_here-Kept :
    (sign : Sign) (rounds : ℕ) (b : Buffer) (e : Editing b)
    → sign.editing ≡ false
    → length e.cells ≤ rounds
    → Kept (delete_here sign rounds false b b.currline (here e.spot))
unfolding delete_here
delete_here-Kept sign rounds b e new fuel =
    elim (Bool-cases (length e.spot.at.bytes == b.currpnt)) [
      | inl f ↦
          rw (f, origin_other sign b (head_of e.spot.behind none) new)
            (join_down-Kept rounds b e fuel)
      | inr f ↦ rw f (delete_char-Kept b e)
    ]

pub backspace-Kept :
    (rounds : ℕ) (b : Buffer) (e : Editing b)
    → length e.cells ≤ rounds
    → Kept (backspace rounds b (here e.spot))
unfolding backspace place_cursor
backspace-Kept rounds b e fuel = elim (Bool-cases (leb 1 b.currpnt)) [
  | inl f ↦ rw f (
      delete_char-Kept (record b { currpnt = b.currpnt - 1 })
        (Editing-place b e b.currline (b.currpnt - 1) b.currln e.spot (omega (arith, e.pnt_in))))
  | inr f ↦ elim (Spot-prev e.cells b.currline b.currln e.spot) [
    | inl (g, _) ↦ record { after = b; runs = rw (f, g) refl; editing = e }
    | inr (n, g, pos, t, back, parts) ↦
        let b1 = place_cursor b (some n) (length t.at.bytes) (b.currln - 1) in
        let e1 : Editing b1 = record {
          cells = e.cells;
          shows = Shows-place b e.cells (some n) (length t.at.bytes) (b.currln - 1) e.shows;
          spot = t;
          pnt_in = omega arith;
          small = e.small;
        } in
        let prev = deref-Spot b e.cells (some n) (b.currln - 1) e.shows t in
        let this = deref-Spot b e.cells b.currline b.currln e.shows e.spot in
        let sh = Shows-place b _ (some n) (length t.at.bytes) (b.currln - 1) (around b e) in
        let whole = around b e in
        let linked : (same_ptr (head_of e.spot.behind none) none
              && same_ptr (last_of none e.spot.before) none)
            ≡ false =
          rw g (unfold same_ptr in ground arith) in
        let (b2, r, sh2, k) =
          delete_dead-Shows b1 e.spot.before e.spot.behind e.spot.at b.store
            (length e.spot.at.bytes) sh (Seg-left b.store none none e.spot.before _ whole.chain)
            (Seg-right b.store none none e.spot.before _ whole.chain).1
            (Seg-right b.store none none e.spot.before _ whole.chain).0 linked in
        elim (Bool-cases (all_blank e.spot.at.bytes)) [
          | inr h ↦ rw (f, g, prev, back, this, h) (join_down-Kept rounds b1 e1 fuel)
          | inl h ↦ record {
            after = b2;
            runs = rw (f, g, prev, back, this, h) (ap (delete_line b1) e.spot.addr ∙ r);
            editing = record {
              cells = e.spot.before ++ e.spot.behind;
              shows = sh2;
              spot = record {
                before = t.before;
                at = t.at;
                behind = e.spot.behind;
                whole =
                    ap (λ x. x ++ e.spot.behind) parts
                    ∙ append_assoc t.before (t.at ∷ []) e.spot.behind;
                addr = k.line ∙ t.addr;
                index = t.index ∙ sym k.ln;
              };
              pnt_in = omega (arith, k.pnt);
              small = small_rest b e;
            };
          }
        ]
  ]
]
