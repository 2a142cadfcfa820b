-- ===== src/Editor/Keeping.antt =====
-- The bytes of a text of bbssrc/src/edit.c that are no blanks, and the lengths of its lines, under
-- typing.
use firebird_bbs.Base.Text.{Bytes}
use firebird_bbs.Base.{
  ℕ, zero, suc, ◌+◌, ◌-◌, ◌≤◌, ◌<◌, ◌≡◌, refl, sym, ap, ◌∙◌, true, false, ◌&&◌, not, some, List, [],
  ◌∷◌, ◌++◌, append_assoc, append-nil, ltb, leb, ◌==◌, if◌then◌else◌, length, length-append, arith,
  Bool-cases, inl, inr, take, drop, length-take, length-drop,
}
use firebird_bbs.Editor.{Buffer}
use firebird_bbs.Editor.Wrap.{wrap_margin, char_at, is_blank, Sign, insert_char}
use firebird_bbs.Editor.Heap.{Cell}
use firebird_bbs.Editor.Linking.{Shows}
use firebird_bbs.Editor.Joining.{blanked, padded}
use firebird_bbs.Editor.Lines.{line_break_lt}
use firebird_bbs.Editor.Flowing.{texts, short, fill_at, reflow, short_padded}
use firebird_bbs.Editor.Typing.{insert_char_lem}
use firebird_bbs.Editor.Wrapping.{
  typed_line, break_in, cut_at, behind_cut, wrapped, length-typed_line, short_behind,
}

-- The bytes that are no blanks.
abbrev pub ink : Bytes → Bytes
ink [] = []
ink (c ∷ s) = if is_blank c then ink s else c ∷ ink s

abbrev pub inks : List Bytes → Bytes
inks [] = []
inks (t ∷ ts) = ink t ++ inks ts

ink-append : (s t : Bytes) → ink (s ++ t) ≡ ink s ++ ink t
ink-append [] t = refl
ink-append (c ∷ s) t = elim (Bool-cases (is_blank c)) [
  | inl e ↦ rw e (ink-append s t)
  | inr e ↦ rw e (ap (◌∷◌ c) (ink-append s t))
]

ink-take-drop : (n : ℕ) (t : Bytes) → ink (take n t) ++ ink (drop n t) ≡ ink t
ink-take-drop n t = sym (ink-append (take n t) (drop n t)) ∙ ap ink (take-drop n t)
  where
    take-drop : (k : ℕ) (s : Bytes) → take k s ++ drop k s ≡ s
    take-drop zero s = refl
    take-drop (suc k) [] = refl
    take-drop (suc k) (c ∷ s) = ap (◌∷◌ c) (take-drop k s)

ink-blanked : (t : Bytes) → ink (blanked t) ≡ ink t
ink-blanked t = elim (Bool-cases (is_blank (char_at t (length t - 1)))) [
  | inl e ↦ rw e refl
  | inr e ↦ rw e (ink-append t (b' ' ∷ []) ∙ append-nil (ink t))
]

ink-padded : (t : Bytes) → ink (padded t) ≡ ink t
ink-padded t = elim (Bool-cases (leb 1 (length t) && ltb (length t + 1) wrap_margin)) [
  | inl e ↦ rw e (ink-blanked t)
  | inr e ↦ rw e refl
]

inks-reflow : (t : Bytes) (ds : List Bytes) → inks (reflow t ds) ≡ ink t ++ inks ds
inks-reflow t [] = refl
inks-reflow t (d ∷ ds) = elim (Bool-cases (ltb (length t + length d) wrap_margin)) [
  | inl e ↦ rw (e, ink-append t d) (append_assoc (ink t) (ink d) (inks ds))
  | inr e ↦ elim (Bool-cases (fill_at t d == 0)) [
    | inl z ↦ rw (e, z) refl
    | inr z ↦
        let i = fill_at t d + 1 in
        rw
          (e, z, ink-append t (take i d), inks-reflow (padded (drop i d)) ds, ink-padded (drop i d))
          (append_assoc (ink t) (ink (take i d)) (ink (drop i d) ++ inks ds)
            ∙ ap (◌++◌ (ink t)) (
                sym (append_assoc (ink (take i d)) (ink (drop i d)) (inks ds))
                ∙ ap (λ s. s ++ inks ds) (ink-take-drop i d)))
  ]
]

pub short-reflow :
    (t : Bytes) (ds : List Bytes)
    → length t < wrap_margin
    → short ds ≡ true
    → short (reflow t ds) ≡ true
short-reflow t [] h k = ground arith
short-reflow t (d ∷ ds) h k = elim (Bool-cases (ltb (length t + length d) wrap_margin)) [
  | inl e ↦ rw e (let l = length-append t d in ground arith)
  | inr e ↦ elim (Bool-cases (fill_at t d == 0)) [
    | inl z ↦ rw (e, z) (ground arith)
    | inr z ↦
        let i = fill_at t d + 1 in
        let start = length d - (length t + length d - wrap_margin) - 1 in
        let fits : length t + i < wrap_margin = omega (
          arith,
          line_break_lt d start (ground arith),
          (let over : wrap_margin ≤ length t + length d = ground arith in over),
        ) in
        let front : length (t ++ take i d) < wrap_margin =
          omega (arith, length-append t (take i d), length-take i d) in
        let rest : length (drop i d) < wrap_margin =
          omega (arith, length-drop i d, (let l : length d < wrap_margin = ground arith in l)) in
        let later =
          short-reflow (padded (drop i d)) ds (short_padded (drop i d) rest) (ground arith) in
        rw (e, z) (ground arith)
  ]
]

inks-wrapped : (t : Bytes) (ds : List Bytes) → inks (wrapped t ds) ≡ ink t ++ inks ds
inks-wrapped t ds = elim (Bool-cases (ltb (length t) wrap_margin)) [
  | inl e ↦ rw e refl
  | inr e ↦
      rw (e, inks-reflow (behind_cut t) ds)
        (sym (append_assoc (ink (take (cut_at t) t)) (ink (behind_cut t)) (inks ds))
          ∙ ap (λ s. s ++ inks ds)
              (ap (◌++◌ (ink (take (cut_at t) t))) behind ∙ ink-take-drop (cut_at t) t))
]
  where
    behind : ink (behind_cut t) ≡ ink (drop (cut_at t) t)
    behind = elim (Bool-cases (not (break_in t == 0) && leb 1 (length (drop (cut_at t) t)))) [
      | inl e ↦ rw e (ink-blanked (drop (cut_at t) t))
      | inr e ↦ rw e refl
    ]

pub short-wrapped :
    (t : Bytes) (ds : List Bytes)
    → length t ≤ wrap_margin
    → short ds ≡ true
    → short (wrapped t ds) ≡ true
short-wrapped t ds h k = elim (Bool-cases (ltb (length t) wrap_margin)) [
  | inl e ↦ rw e (ground arith)
  | inr e ↦
      let full : length t ≡ wrap_margin = ground arith in
      let rest = short-reflow (behind_cut t) ds (short_behind t full) k in
      let front : length (take (cut_at t) t) < wrap_margin = elim (Bool-cases (break_in t == 0)) [
        | inl z ↦ rw z (omega (arith, length-take (length t - 1) t))
        | inr z ↦ rw z (
            omega (
              arith,
              length-take (break_in t + 1) t,
              line_break_lt t (length t - 1) (ground arith),
            ))
      ] in
      rw e (ground arith)
]

-- Typing a character, where no posted article is edited and all lines from the cursor on fit their
-- arrays: the run ends, all those lines fit their arrays again, and the bytes that are no blanks
-- stay as they were with the one character typed, in their order, however the lines are broken.
pub insert_char_keeps :
    (sign : Sign) (rounds : ℕ) (b : Buffer) (xs ys : List Cell) (c : Cell) (ch : ℕ)
    → sign.editing ≡ false
    → Shows b (xs ++ c ∷ ys)
    → b.currline ≡ some c.addr
    → b.currpnt ≤ length c.bytes
    → short (texts (c ∷ ys)) ≡ true
    → length ys < rounds
    → (after : Buffer) × (cells : List Cell) × (insert_char sign rounds b ch ≡ some after)
      × Shows after (xs ++ cells)
      × (short (texts cells) ≡ true)
      × (inks (texts cells)
          ≡ ink (typed_line b.insert_character c.bytes b.currpnt ch) ++ inks (texts ys))
insert_char_keeps sign rounds b xs ys c ch new sh cur inside small fuel =
    let typed = insert_char_lem sign rounds b xs ys c ch new sh cur inside small fuel in
    let t = typed_line b.insert_character c.bytes b.currpnt ch in
    let size = length-typed_line b.insert_character c.bytes b.currpnt ch inside in
    let fits : length c.bytes < wrap_margin = ground arith in
    (
      typed.after,
      typed.cells,
      typed.runs,
      typed.shows,
      ap short typed.lines ∙ short-wrapped t (texts ys) (omega arith) (ground arith),
      ap inks typed.lines ∙ inks-wrapped t (texts ys),
    )
