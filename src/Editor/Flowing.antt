-- ===== src/Editor/Flowing.antt =====
-- How `join` fills one line after another, `join_on`, of bbssrc/src/edit.c.
use firebird_bbs.Base.Text.{Bytes}
use firebird_bbs.Base.{
  ℕ, zero, suc, ◌+◌, ◌-◌, ◌<◌, ◌≡◌, refl, sym, ap, ◌∙◌, Bool, true, false, ◌&&◌, Option, none, some,
  List, [], ◌∷◌, ◌++◌, map, append_assoc, ltb, leb, ◌==◌, if◌then◌else◌, length, length-append,
  arith, Bool-cases, inl, inr, take, drop, length-drop,
}
use firebird_bbs.Editor.{Ptr, Buffer, same_ptr}
use firebird_bbs.Editor.Wrap.{wrap_margin, char_at, is_blank, line_break, next_of, join, join_on}
use firebird_bbs.Editor.Heap.{Cell, has, head_of}
use firebird_bbs.Editor.Linking.{Shows, SameCursor, SameCursor-trans}
use firebird_bbs.Editor.Splitting.{tail_cell}
use firebird_bbs.Editor.Deleting.{recell}
use firebird_bbs.Editor.Joining.{padded, next_of-Shows, break_of, join_lem}

abbrev pub texts : List Cell → List Bytes
texts = map (λ c. c.bytes)

-- Every line fits its array.
abbrev pub short : List Bytes → Bool
short [] = true
short (t ∷ ts) = ltb (length t) wrap_margin && short ts

-- Where the next line `d` is broken to fill the line `t`.
abbrev pub fill_at : Bytes → Bytes → ℕ
fill_at t d = line_break d (length d - (length t + length d - wrap_margin) - 1)

-- The line `t` and the lines behind it, each filled from the next one as long as a part of that
-- one moves up.
abbrev pub reflow : Bytes → List Bytes → List Bytes
reflow t [] = t ∷ []
reflow t (d ∷ ds) =
    if ltb (length t + length d) wrap_margin
    then (t ++ d) ∷ ds
    else if fill_at t d == 0
    then t ∷ d ∷ ds
    else (t ++ take (fill_at t d + 1) d) ∷ reflow (padded (drop (fill_at t d + 1) d)) ds

pub short_padded : (t : Bytes) → length t < wrap_margin → length (padded t) < wrap_margin
short_padded t h = elim (Bool-cases (leb 1 (length t) && ltb (length t + 1) wrap_margin)) [
  | inr e ↦ rw e h
  | inl e ↦ rw e (elim (Bool-cases (is_blank (char_at t (length t - 1)))) [
    | inl s ↦ rw s h
    | inr s ↦ rw s (
        omega (
          arith,
          length-append t (b' ' ∷ []),
          (let k : length t + 1 < wrap_margin = ground arith in k),
        ))
  ])
]

-- The result of the loop, as a text.
pub record Flowed (b : Buffer) (xs ys : List Cell) (c : Cell) (r : Option (Ptr × Buffer))
    : Type 0 where
  pub at : Ptr
  pub after : Buffer
  pub cells : List Cell
  pub runs : r ≡ some (at, after)
  pub shows : Shows after (xs ++ cells)
  pub flowed : texts cells ≡ reflow c.bytes (texts ys)
  pub first : head_of cells none ≡ some c.addr
  pub cursor : SameCursor b after
  pub stops : same_ptr at none ≡ false

pub away_head :
    (a : ℕ) (ys : List Cell) (line : Ptr)
    → line ≡ some a
    → has a ys ≡ false
    → same_ptr (head_of ys none) line ≡ false
unfolding same_ptr
away_head a [] line e o = rw e refl
away_head a (y ∷ ys) line e o = rw e (ground arith)

flow_step :
    (k : ℕ) (b b1 : Buffer) (xs ys : List Cell) (c c' d n : Cell)
    → join b (some c.addr) ≡ some (false, b1)
    → Shows b1 (xs ++ c' ∷ n ∷ ys)
    → SameCursor b b1
    → c'.addr ≡ c.addr
    → reflow c.bytes (d.bytes ∷ texts ys) ≡ c'.bytes ∷ reflow n.bytes (texts ys)
    → Flowed b1 (xs ++ c' ∷ []) ys n (join_on k b1 (some n.addr))
    → Flowed b xs (d ∷ ys) c (join_on (suc k) b (some c.addr))
unfolding join_on
flow_step k b b1 xs ys c c' d n e sh keep at_c flow rest =
    let next : next_of b1 (some c.addr) ≡ some (some n.addr) =
      rw (← at_c) (next_of-Shows b1 xs (n ∷ ys) c' sh) in
    record {
      at = rest.at;
      after = rest.after;
      cells = c' ∷ rest.cells;
      runs = rw (e, next) rest.runs;
      shows = rw (append_assoc xs (c' ∷ []) rest.cells) at rest.shows;
      flowed = ap (◌∷◌ c'.bytes) rest.flowed ∙ sym flow;
      first = ap some at_c;
      cursor = SameCursor-trans keep rest.cursor;
      stops = rest.stops;
    }

pub join_on-Flowed :
    (rounds : ℕ) (b : Buffer) (xs ys : List Cell) (c : Cell) (a : ℕ)
    → Shows b (xs ++ c ∷ ys)
    → b.currline ≡ some a
    → has a ys ≡ false
    → length c.bytes < wrap_margin
    → short (texts ys) ≡ true
    → length ys < rounds
    → Flowed b xs ys c (join_on rounds b (some c.addr))
unfolding join_on
join_on-Flowed zero b xs ys c a sh cur away s1 s2 fuel = absurd (omega arith)
join_on-Flowed (suc k) b xs [] c a sh cur away s1 s2 fuel =
    let (b1, e1, sh1, k1) = join_lem b xs [] c sh (away_head a [] b.currline cur away) s1 in
    record {
      at = some c.addr;
      after = b1;
      cells = c ∷ [];
      runs = rw e1 refl;
      shows = sh1;
      flowed = refl;
      first = refl;
      cursor = k1;
      stops = unfold same_ptr in refl;
    }
join_on-Flowed (suc k) b xs (d ∷ ys) c a sh cur away s1 s2 fuel =
    let (b1, e1, sh1, k1) =
      join_lem b xs (d ∷ ys) c sh (away_head a (d ∷ ys) b.currline cur away) s1 in
    elim (Bool-cases (ltb (length c.bytes + length d.bytes) wrap_margin)) [
      | inl fits ↦ record {
        at = some c.addr;
        after = b1;
        cells = recell c (c.bytes ++ d.bytes) ∷ ys;
        runs = rw (e1, fits) refl;
        shows = rw fits at sh1;
        flowed = rw fits refl;
        first = refl;
        cursor = k1;
        stops = unfold same_ptr in refl;
      }
      | inr long ↦ elim (Bool-cases (break_of c d == 0)) [
        | inl z ↦ record {
          at = some c.addr;
          after = b1;
          cells = c ∷ d ∷ ys;
          runs = rw (e1, long, z) refl;
          shows = rw (long, z) at sh1;
          flowed = rw (long, z) refl;
          first = refl;
          cursor = k1;
          stops = unfold same_ptr in refl;
        }
        | inr nz ↦
            let i = break_of c d in
            let c' = recell c (c.bytes ++ take (i + 1) d.bytes) in
            let n = recell (tail_cell d (i + 1) b.fresh) (padded (drop (i + 1) d.bytes)) in
            let sh2 : Shows b1 (xs ++ c' ∷ n ∷ ys) = rw (long, nz) at sh1 in
            let small : length (padded (drop (i + 1) d.bytes)) < wrap_margin =
              short_padded (drop (i + 1) d.bytes)
                (let l = length-drop (i + 1) d.bytes in ground arith) in
            let rest =
              join_on-Flowed k b1 (xs ++ c' ∷ []) ys n a
                (rw (append_assoc xs (c' ∷ []) (n ∷ ys)) sh2) (k1.line ∙ cur) (ground arith) small
                (ground arith) (omega arith) in
            let step : join b (some c.addr) ≡ some (false, b1) = rw (long, nz) at e1 in
            flow_step k b b1 xs ys c c' d n step sh2 k1 refl (rw (long, nz) refl) rest
      ]
    ]
