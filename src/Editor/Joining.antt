-- ===== src/Editor/Joining.antt =====
-- The text that the buffer shows after `join` of bbssrc/src/edit.c.
use firebird_bbs.Base.Text.{Bytes}
use firebird_bbs.Base.{
  ℕ, suc, ◌+◌, ◌-◌, ◌≤◌, ◌<◌, ◌≡◌, refl, ap, Bool, true, false, ◌&&◌, none, some, List, [], ◌∷◌,
  ◌++◌, append_assoc, ltb, leb, ◌==◌, if◌then◌else◌, length, length-append, arith, Bool-cases, inl,
  inr, take, drop, length-take,
}
use firebird_bbs.Editor.{Ptr, Buffer, same_ptr, modify, follow_split}
use firebird_bbs.Editor.Wrap.{
  wrap_margin, char_at, is_blank, line_break, add_blank, pad_next, join_whole, next_of, join_part,
  join_next, join_rounds, join,
}
use firebird_bbs.Editor.Heap.{Cell, head_of, line_of}
use firebird_bbs.Editor.Linking.{Shows, SameCursor, SameCursor-trans, last_after}
use firebird_bbs.Editor.Splitting.{tail_cell, split_followed}
use firebird_bbs.Editor.Deleting.{recell, deleted_lines, delete_line_lem}
use firebird_bbs.Editor.Lines.{line_break_lt, recell-Shows, deref-Shows}

deleted_next : (xs ys : List Cell) (c d : Cell) → deleted_lines (xs ++ c ∷ []) d ys ≡ xs ++ c ∷ ys
deleted_next [] ys c d = refl
deleted_next (x ∷ xs) ys c d = ap (◌∷◌ x) (append_assoc xs (c ∷ []) ys)

-- The two lines at `c` as one.
join_whole-Shows :
    (b : Buffer) (xs ys : List Cell) (c d : Cell)
    → Shows b (xs ++ c ∷ d ∷ ys)
    → (b' : Buffer) × (join_whole b (some c.addr) (some d.addr) ≡ some b')
      × Shows b' (xs ++ recell c (c.bytes ++ d.bytes) ∷ ys)
      × SameCursor b b'
unfolding join_whole
join_whole-Shows b xs ys c d sh =
    let t = c.bytes ++ d.bytes in
    let at_d = deref-Shows b (xs ++ c ∷ []) ys d (rw (append_assoc xs (c ∷ []) (d ∷ ys)) sh) in
    let (b1, e1, sh1, k1) =
      recell-Shows b xs (d ∷ ys) c t
        (λ x. record x { text = x.text ++ d.bytes; len = x.len + length d.bytes }) sh
        (λ p q. rw (length-append c.bytes d.bytes) refl) in
    let (b2, e2, sh2, k2, _) =
      delete_line_lem b1 (xs ++ recell c t ∷ []) ys d
        (rw (append_assoc xs (recell c t ∷ []) (d ∷ ys)) sh1) in
    (b2, rw (at_d, e1) e2, rw (deleted_next xs ys (recell c t) d) at sh2, SameCursor-trans k1 k2)

-- A text with a blank at its end.
abbrev pub blanked : Bytes → Bytes
blanked t = if is_blank (char_at t (length t - 1)) then t else t ++ b' ' ∷ []

-- The same, where the text is not empty and has room for it.
abbrev pub padded : Bytes → Bytes
padded t = if leb 1 (length t) && ltb (length t + 1) wrap_margin then blanked t else t

add_blank-line :
    (c : Cell) (p q : Ptr) → add_blank (line_of p c q) ≡ line_of p (recell c (blanked c.bytes)) q
unfolding add_blank
add_blank-line c p q = elim (Bool-cases (is_blank (char_at c.bytes (length c.bytes - 1)))) [
  | inl e ↦ rw e refl
  | inr e ↦ rw (e, length-append c.bytes (b' ' ∷ [])) refl
]

pub add_blank-Shows :
    (b : Buffer) (xs ys : List Cell) (c : Cell)
    → Shows b (xs ++ c ∷ ys)
    → (b' : Buffer) × (modify b (some c.addr) add_blank ≡ some b')
      × Shows b' (xs ++ recell c (blanked c.bytes) ∷ ys)
      × SameCursor b b'
add_blank-Shows b xs ys c sh =
    recell-Shows b xs ys c (blanked c.bytes) add_blank sh (add_blank-line c)

pad_next-Shows :
    (b : Buffer) (xs ys : List Cell) (c : Cell)
    → Shows b (xs ++ c ∷ ys)
    → (b' : Buffer) × (pad_next b (some c.addr) ≡ some b')
      × Shows b' (xs ++ recell c (padded c.bytes) ∷ ys)
      × SameCursor b b'
unfolding pad_next
pad_next-Shows b xs ys c sh =
    let here = deref-Shows b xs ys c sh in
    elim (Bool-cases (leb 1 (length c.bytes) && ltb (length c.bytes + 1) wrap_margin)) [
      | inl e ↦
          let (b1, e1, sh1, k1) = add_blank-Shows b xs ys c sh in
          (b1, rw (here, e) e1, rw e sh1, k1)
      | inr e ↦ (
        b,
        rw (here, e) refl,
        rw e sh,
        record { line = refl; pnt = refl; ln = refl; mode = refl },
      )
    ]

pub next_of-Shows :
    (b : Buffer) (xs ys : List Cell) (c : Cell)
    → Shows b (xs ++ c ∷ ys)
    → next_of b (some c.addr) ≡ some (head_of ys none)
unfolding next_of
next_of-Shows b xs ys c sh = rw (deref-Shows b xs ys c sh) refl

-- `join` where both lines fit into one.
join_fits :
    (k : ℕ) (b : Buffer) (xs ys : List Cell) (c d : Cell)
    → Shows b (xs ++ c ∷ d ∷ ys)
    → length c.bytes + length d.bytes < wrap_margin
    → (b' : Buffer) × (join_rounds (suc k) b (some c.addr) ≡ some (true, b'))
      × Shows b' (xs ++ recell c (c.bytes ++ d.bytes) ∷ ys)
      × SameCursor b b'
unfolding join_rounds join_next
join_fits k b xs ys c d sh fits =
    let at_c = deref-Shows b xs (d ∷ ys) c sh in
    let at_d = deref-Shows b (xs ++ c ∷ []) ys d (rw (append_assoc xs (c ∷ []) (d ∷ ys)) sh) in
    let short : ltb (length c.bytes + length d.bytes) wrap_margin ≡ true = ground arith in
    let (b1, e1, sh1, k1) = join_whole-Shows b xs ys c d sh in
    (b1, rw (at_c, at_d, short, e1) refl, sh1, k1)

-- Where the line `d` is broken to fill the line `c`.
abbrev pub break_of : Cell → Cell → ℕ
break_of c d =
    line_break d.bytes (length d.bytes - (length c.bytes + length d.bytes - wrap_margin) - 1)

-- The lines from `c` on after `join`, and its result; a new line is at `p`.
abbrev pub joined : Cell → List Cell → ℕ → Bool × List Cell
joined c [] p = (true, c ∷ [])
joined c (d ∷ ys) p =
    if ltb (length c.bytes + length d.bytes) wrap_margin
    then (true, recell c (c.bytes ++ d.bytes) ∷ ys)
    else if break_of c d == 0
    then (true, c ∷ d ∷ ys)
    else (
      false,
      recell c (c.bytes ++ take (break_of c d + 1) d.bytes)
          ∷ recell (tail_cell d (break_of c d + 1) p) (padded (drop (break_of c d + 1) d.bytes))
          ∷ ys,
    )

keeps_cursor :
    (b : Buffer) (line : Ptr) (pos p : ℕ)
    → same_ptr line b.currline ≡ false
    → follow_split b line pos p ≡ b
unfolding follow_split
keeps_cursor b line pos p h = rw h refl

join_part-Shows :
    (k : ℕ) (b : Buffer) (xs ys : List Cell) (c d : Cell) (pos : ℕ)
    → Shows b (xs ++ c ∷ d ∷ ys)
    → same_ptr (some d.addr) b.currline ≡ false
    → pos ≤ length d.bytes
    → length c.bytes + pos < wrap_margin
    → (b' : Buffer) × (join_part (join_rounds (suc k)) b (some c.addr) (some d.addr) pos
        ≡ some (false, b'))
      × Shows b' (
          xs
          ++ recell c (c.bytes ++ take pos d.bytes)
            ∷ recell (tail_cell d pos b.fresh) (padded (drop pos d.bytes))
            ∷ ys)
      × SameCursor b b'
unfolding join_part
join_part-Shows k b xs ys c d pos sh away fits room =
    let (g, (e1, sh1)) =
      split_followed b (xs ++ c ∷ []) ys d pos (rw (append_assoc xs (c ∷ []) (d ∷ ys)) sh) fits in
    let b1 = record b {
      store = g;
      fresh = b.fresh + 1;
      lastline = last_after b.lastline b.fresh ys;
    } in
    let d' = recell d (take pos d.bytes) in
    let n = tail_cell d pos b.fresh in
    let stays : follow_split b1 (some d.addr) pos b.fresh ≡ b1 =
      keeps_cursor b1 (some d.addr) pos b.fresh away in
    let sh1' : Shows b1 (xs ++ c ∷ d' ∷ n ∷ ys) =
      rw (append_assoc xs (c ∷ []) (d' ∷ n ∷ ys)) at sh1 in
    let at_c = deref-Shows b1 xs (d' ∷ n ∷ ys) c sh1' in
    let at_d = deref-Shows b1 (xs ++ c ∷ []) (n ∷ ys) d' sh1 in
    let front : length (take pos d.bytes) ≡ pos = omega (arith, length-take pos d.bytes) in
    let short : leb wrap_margin (length c.bytes + length (take pos d.bytes)) ≡ false =
      ground arith in
    let (b2, e2, sh2, k2) = join_fits k b1 xs (n ∷ ys) c d' sh1' (omega arith) in
    let c' = recell c (c.bytes ++ take pos d.bytes) in
    let next = next_of-Shows b2 xs (n ∷ ys) c' sh2 in
    let (b3, e3, sh3, k3) =
      pad_next-Shows b2 (xs ++ c' ∷ []) ys n (rw (append_assoc xs (c' ∷ []) (n ∷ ys)) sh2) in
    (
      b3,
      rw (e1, stays, at_c, at_d, short, e2, next, e3) refl,
      rw (append_assoc xs (c' ∷ []) (recell n (padded n.bytes) ∷ ys)) at sh3,
      SameCursor-trans (record { line = refl; pnt = refl; ln = refl; mode = refl })
          (SameCursor-trans k2 k3),
    )

-- `join` does to the text what `joined` says, on every branch, where the line has less than 255
-- bytes and the cursor is not on the next line. It follows no null or freed pointer, calls itself
-- once at most, and leaves the cursor alone.
pub join_lem :
    (b : Buffer) (xs ys : List Cell) (c : Cell)
    → Shows b (xs ++ c ∷ ys)
    → same_ptr (head_of ys none) b.currline ≡ false
    → length c.bytes < wrap_margin
    → (b' : Buffer) × (join b (some c.addr) ≡ some ((joined c ys b.fresh).0, b'))
      × Shows b' (xs ++ (joined c ys b.fresh).1)
      × SameCursor b b'
unfolding join join_rounds join_next
join_lem b xs [] c sh away short = (
  b,
  rw (deref-Shows b xs [] c sh) refl,
  sh,
  record { line = refl; pnt = refl; ln = refl; mode = refl },
)
join_lem b xs (d ∷ ys) c sh away short =
    let at_c = deref-Shows b xs (d ∷ ys) c sh in
    let at_d = deref-Shows b (xs ++ c ∷ []) ys d (rw (append_assoc xs (c ∷ []) (d ∷ ys)) sh) in
    elim (Bool-cases (ltb (length c.bytes + length d.bytes) wrap_margin)) [
      | inl fits ↦
          let (b1, e1, sh1, k1) = join_fits 1 b xs ys c d sh (ground arith) in
          (b1, rw fits e1, rw fits sh1, k1)
      | inr long ↦ elim (Bool-cases (break_of c d == 0)) [
        | inl z ↦ (
          b,
          rw (at_c, at_d, long, z) refl,
          rw (long, z) sh,
          record { line = refl; pnt = refl; ln = refl; mode = refl },
        )
        | inr nz ↦
            let start = length d.bytes - (length c.bytes + length d.bytes - wrap_margin) - 1 in
            let i = break_of c d in
            let early = line_break_lt d.bytes start (ground arith) in
            let over : wrap_margin ≤ length c.bytes + length d.bytes = ground arith in
            let (b1, e1, sh1, k1) =
              join_part-Shows 0 b xs ys c d (i + 1) sh away (omega (arith, early, over))
                (omega (arith, early, over)) in
            (b1, rw (at_c, at_d, long, nz) e1, rw (long, nz) sh1, k1)
      ]
    ]
