-- ===== src/Editor/Changing.antt =====
-- The keys of bbssrc/src/edit.c that put in or take out a character, and the loop that joins lines.
use firebird_bbs.Base.Text.{Bytes}
use firebird_bbs.Base.{
  ℕ, append_assoc, ◌+◌, ◌-◌, ◌≤◌, ◌<◌, ◌≡◌, refl, sym, ap, ◌∙◌, subst, Bool, true, false, ◌&&◌,
  ◌||◌, not, none, some, List, [], ◌∷◌, ◌++◌, ltb, leb, ◌==◌, length, length-append, arith,
  Bool-cases, inl, inr, take, drop, length-take, length-drop, length-set,
}
use firebird_bbs.Editor.{Buffer, split}
use firebird_bbs.Editor.Wrap.{
  is_blank, char_at, wrap_margin, Sign, insert_at, insert_char, delete_at, delete_char,
}
use firebird_bbs.Editor.Heap.{Cell, head_of, distinct-append, distinct-cons}
use firebird_bbs.Editor.Linking.{Shows}
use firebird_bbs.Editor.Deleting.{recell}
use firebird_bbs.Editor.Joining.{padded}
use firebird_bbs.Editor.Lines.{deref-Shows, recell-Shows}
use firebird_bbs.Editor.Flowing.{texts, short, reflow, fill_at, join_on-Flowed}
use firebird_bbs.Editor.Typing.{insert_char_lem}
use firebird_bbs.Editor.Wrapping.{typed_line, cut_at, behind_cut, break_in, length-typed_line}
use firebird_bbs.Editor.Keeping.{short-wrapped, short-reflow}
use firebird_bbs.Editor.Keys.{join_down}
use firebird_bbs.Editor.Spots.{short-texts-append, Editing}
use firebird_bbs.Editor.Moving.{Kept}

-- The first line only gets longer.
pub reflow-head :
    (t : Bytes) (ds : List Bytes)
    → (h : Bytes) × (rest : List Bytes) × (reflow t ds ≡ h ∷ rest) × (length t ≤ length h)
reflow-head t [] = (t, [], refl, omega arith)
reflow-head t (d ∷ ds) = elim (Bool-cases (ltb (length t + length d) wrap_margin)) [
  | inl e ↦ (t ++ d, ds, rw e refl, omega (arith, length-append t d))
  | inr e ↦ elim (Bool-cases (fill_at t d == 0)) [
    | inl z ↦ (t, d ∷ ds, rw (e, z) refl, omega arith)
    | inr z ↦
        let i = fill_at t d + 1 in
        (
          t ++ take i d,
          reflow (padded (drop i d)) ds,
          rw (e, z) refl,
          omega (arith, length-append t (take i d)),
        )
  ]
]

pub texts_cons :
    (cells : List Cell) (t : Bytes) (ts : List Bytes)
    → texts cells ≡ t ∷ ts
    → (c : Cell) × (cs : List Cell) × (cells ≡ c ∷ cs) × (c.bytes ≡ t) × (texts cs ≡ ts)
texts_cons [] t ts e = absurd (omega (arith, ap length e))
texts_cons (c ∷ cs) t ts e = (c, cs, refl, ap first e, ap rest e)
  where
    first : List Bytes → Bytes
    first [] = []
    first (x ∷ xs) = x

    rest : List Bytes → List Bytes
    rest [] = []
    rest (x ∷ xs) = xs

module _ (b : Buffer) (e : Editing b) where
  -- The text around the cursor's line.
  pub around : Shows b (e.spot.before ++ e.spot.at ∷ e.spot.behind)
  around = subst (Shows b) e.spot.whole e.shows

  pub small_around :
      (short (texts e.spot.before) ≡ true) × (short (texts (e.spot.at ∷ e.spot.behind)) ≡ true)
  small_around =
      let h = ap (λ cs. short (texts cs)) (sym e.spot.whole) ∙ e.small in
      let s = short-texts-append e.spot.before (e.spot.at ∷ e.spot.behind) in
      (ground arith, ground arith)

  pub lines_behind : (rounds : ℕ) → length e.cells ≤ rounds → length e.spot.behind < rounds
  lines_behind rounds fuel =
      omega (arith, ap length e.spot.whole, length-append e.spot.before (e.spot.at ∷ e.spot.behind))

-- The cursor's line and those behind it have become `cells`.
pub Editing-cells :
    (b b' : Buffer) (e : Editing b) (cells : List Cell) (c : Cell) (cs : List Cell)
    → Shows b' (e.spot.before ++ cells)
    → cells ≡ c ∷ cs
    → b'.currline ≡ some c.addr
    → b'.currln ≡ b.currln
    → b'.currpnt ≤ length c.bytes
    → short (texts cells) ≡ true
    → Editing b'
Editing-cells b b' e cells c cs sh w at ln pnt small = record {
  cells = e.spot.before ++ cells;
  shows = sh;
  spot = record {
    before = e.spot.before;
    at = c;
    behind = cs;
    whole = ap (◌++◌ e.spot.before) w;
    addr = at;
    index = e.spot.index ∙ sym ln;
  };
  pnt_in = pnt;
  small =
      let s = short-texts-append e.spot.before cells in
      let f = (small_around b e).0 in ground arith;
}

-- The cursor is in the second one of these lines.
pub Editing-second :
    (b b' : Buffer) (e : Editing b) (cells : List Cell) (c d : Cell) (cs : List Cell)
    → Shows b' (e.spot.before ++ cells)
    → cells ≡ c ∷ d ∷ cs
    → b'.currline ≡ some d.addr
    → b'.currln ≡ b.currln + 1
    → b'.currpnt ≤ length d.bytes
    → short (texts cells) ≡ true
    → Editing b'
Editing-second b b' e cells c d cs sh w at ln pnt small = record {
  cells = e.spot.before ++ cells;
  shows = sh;
  spot = record {
    before = e.spot.before ++ c ∷ [];
    at = d;
    behind = cs;
    whole = ap (◌++◌ e.spot.before) w ∙ sym (append_assoc e.spot.before (c ∷ []) (d ∷ cs));
    addr = at;
    index = omega (arith, e.spot.index, ln, length-append e.spot.before (c ∷ []));
  };
  pnt_in = pnt;
  small =
      let s = short-texts-append e.spot.before cells in
      let f = (small_around b e).0 in ground arith;
}

pub join_down-Kept :
    (rounds : ℕ) (b : Buffer) (e : Editing b)
    → length e.cells ≤ rounds
    → Kept (join_down rounds b b.currline)
unfolding join_down
join_down-Kept rounds b e fuel =
    let c = e.spot.at in
    let sh = around b e in
    let small = (small_around b e).1 in
    let (_, d, _) = distinct-append e.spot.before (c ∷ e.spot.behind) sh.apart in
    let flow =
      join_on-Flowed rounds b e.spot.before e.spot.behind c c.addr sh e.spot.addr
        (distinct-cons c e.spot.behind d).0 (ground arith) (ground arith)
        (lines_behind b e rounds fuel) in
    let (h, rest, w, longer) = reflow-head c.bytes (texts e.spot.behind) in
    let (c1, cs, split, bytes, _) = texts_cons flow.cells h rest (flow.flowed ∙ w) in
    let pnt : flow.after.currpnt ≤ length c1.bytes =
      omega (arith, ap length bytes, longer, flow.cursor.pnt, e.pnt_in) in
    record {
      after = flow.after;
      runs = ap (λ p. join_down rounds b p) e.spot.addr ∙ rw (flow.runs, flow.stops) refl;
      editing =
          Editing-cells b flow.after e flow.cells c1 cs flow.shows split
            (flow.cursor.line ∙ e.spot.addr ∙ sym flow.first ∙ ap (λ x. head_of x none) split)
            flow.cursor.ln pnt
            (ap short flow.flowed
              ∙ short-reflow c.bytes (texts e.spot.behind) (ground arith) (ground arith));
    }

pub delete_char-Kept : (b : Buffer) (e : Editing b) → Kept (delete_char b)
unfolding delete_char delete_at
delete_char-Kept b e =
    let c = e.spot.at in
    let here = deref-Shows b e.spot.before e.spot.behind c (around b e) in
    elim (Bool-cases (length c.bytes == 0 || leb (length c.bytes) b.currpnt)) [
      | inl f ↦ record {
        after = b;
        runs = ap (delete_at b) e.spot.addr ∙ rw (here, f) refl;
        editing = e;
      }
      | inr f ↦
          let t = take b.currpnt c.bytes ++ drop (b.currpnt + 1) c.bytes in
          let less : b.currpnt < length c.bytes = ground arith in
          let n : length t ≡ length c.bytes - 1 = omega (
            arith,
            length-append (take b.currpnt c.bytes) (drop (b.currpnt + 1) c.bytes),
            length-take b.currpnt c.bytes,
            length-drop (b.currpnt + 1) c.bytes,
          ) in
          let (b1, r, sh, k) =
            recell-Shows b e.spot.before e.spot.behind c t
              (λ x. record x {
                text = take b.currpnt x.text ++ drop (b.currpnt + 1) x.text;
                len = x.len - 1;
              })
              (around b e) (λ p q. rw n refl) in
          let small = (small_around b e).1 in
          record {
            after = b1;
            runs = ap (delete_at b) e.spot.addr ∙ rw (here, f) r;
            editing =
                Editing-cells b b1 e (recell c t ∷ e.spot.behind) (recell c t) e.spot.behind sh refl
                  (k.line ∙ e.spot.addr) k.ln (omega (arith, k.pnt)) (ground arith);
          }
    ]

-- The character typed is in the line.
typed_inside :
    (m : Bool) (t : Bytes) (pnt ch : ℕ) → pnt ≤ length t → pnt < length (typed_line m t pnt ch)
typed_inside m t pnt ch h = elim (Bool-cases (ltb pnt (length t) && not m)) [
  | inl e ↦ let l : pnt < length t = ground arith in rw (e, length-set t pnt ch) l
  | inr e ↦
      rw (e, length-append (take pnt t) (ch ∷ drop pnt t), length-take pnt t, length-drop pnt t)
        (omega arith)
]

behind_longer : (t : Bytes) → length t - cut_at t ≤ length (behind_cut t)
behind_longer t = elim (Bool-cases (not (break_in t == 0) && leb 1 (length (drop (cut_at t) t)))) [
  | inl e ↦
      rw e
        (elim (Bool-cases
          (is_blank (char_at (drop (cut_at t) t) (length (drop (cut_at t) t) - 1)))) [
            | inl f ↦ rw f (omega (arith, length-drop (cut_at t) t))
            | inr f ↦ rw f (
                omega
                  (arith, length-drop (cut_at t) t, length-append (drop (cut_at t) t) (b' ' ∷ [])))
          ])
  | inr e ↦ rw e (omega (arith, length-drop (cut_at t) t))
]

pub insert_at-Kept :
    (sign : Sign) (rounds : ℕ) (b : Buffer) (e : Editing b) (ch : ℕ)
    → sign.editing ≡ false
    → length e.cells ≤ rounds
    → Kept (insert_at sign rounds b b.currline ch)
unfolding insert_char
insert_at-Kept sign rounds b e ch new fuel =
    let c = e.spot.at in
    let ds = texts e.spot.behind in
    let t = typed_line b.insert_character c.bytes b.currpnt ch in
    let small = (small_around b e).1 in
    let r =
      insert_char_lem sign rounds b e.spot.before e.spot.behind c ch new (around b e) e.spot.addr
        e.pnt_in small (lines_behind b e rounds fuel) in
    let size = length-typed_line b.insert_character c.bytes b.currpnt ch e.pnt_in in
    let ok : short (texts r.cells) ≡ true =
      ap short r.lines
      ∙ short-wrapped t ds (let l : length c.bytes < wrap_margin = ground arith in omega arith)
          (ground arith) in
    let inside : b.currpnt < length t =
      typed_inside b.insert_character c.bytes b.currpnt ch e.pnt_in in
    record {
      after = r.after;
      runs = r.runs;
      editing = elim (Bool-cases (ltb (length t) wrap_margin)) [
        | inl f ↦
            let (c1, cs, w, bytes, _) = texts_cons r.cells t ds (r.lines ∙ rw f refl) in
            Editing-cells b r.after e r.cells c1 cs r.shows w (r.line ∙ rw (f, w) refl)
              (r.ln ∙ rw f (omega arith))
              (let p : r.after.currpnt ≡ b.currpnt + 1 = r.pnt_in ∙ rw f refl in
                omega (arith, ap length bytes))
              ok
        | inr f ↦
            let (h, rest, w2, longer) = reflow-head (behind_cut t) ds in
            let (c1, cs1, w1, bytes1, rest1) =
              texts_cons r.cells (take (cut_at t) t) (reflow (behind_cut t) ds)
                (r.lines ∙ rw f refl) in
            elim (Bool-cases (leb (cut_at t) (b.currpnt + 1))) [
              | inl down ↦
                  let (c2, cs2, w3, bytes2, _) = texts_cons cs1 h rest (rest1 ∙ w2) in
                  let p : r.after.currpnt ≡ b.currpnt + 1 - cut_at t =
                    r.pnt_in ∙ rw (f, down) refl in
                  Editing-second b r.after e r.cells c1 c2 cs2 r.shows (w1 ∙ ap (◌∷◌ c1) w3)
                    (r.line ∙ rw (f, down, w1, w3) refl) (r.ln ∙ rw (f, down) refl)
                    (omega (arith, ap length bytes2, behind_longer t)) ok
              | inr up ↦
                  let p : r.after.currpnt ≡ b.currpnt + 1 = r.pnt_in ∙ rw (f, up) refl in
                  let short_of : b.currpnt + 1 < cut_at t = ground arith in
                  Editing-cells b r.after e r.cells c1 cs1 r.shows w1 (r.line ∙ rw (f, up, w1) refl)
                    (r.ln ∙ rw (f, up) (omega arith))
                    (omega (arith, ap length bytes1, length-take (cut_at t) t)) ok
            ]
      ];
    }
