-- ===== src/Screen/Text.antt =====
-- The text of the picture in bbssrc/src/screen.c, and what `outs` and `refresh` together make a terminal show.
use native.Mathlib.Nat.{mod-eq_of_lt}
use firebird_bbs.Base.Maps.{update, update_self, update_ne}
use firebird_bbs.Base.{
  ℕ, ◌+◌, ◌%◌, ◌<◌, ◌≡◌, ◌≢◌, refl, sym, ap, ◌∙◌, subst, true, false, ◌&&◌, not, ltb, leb, ◌==◌,
  ==_iff, if◌then◌else◌, arith, Bool-cases, inl, inr,
}
use firebird_bbs.Screen.{
  Line, Screen, Setup, row, set_line, fill, is_print, grow_line, mark_line, write_cell, advance,
  outc_line, outc,
}
use firebird_bbs.Screen.Frames.{row_ne}
use firebird_bbs.Screen.Writing.{write_cell-len}

-- What a line shows in a column, and what the picture shows in a place.
abbrev pub line_text : Line → ℕ → ℕ
line_text l k = if ltb k l.len then l.cells k else b' '

abbrev pub text : Screen → ℕ → ℕ → ℕ
text s a k = line_text (s.picture (row s a)) k

write_cell-cells :
    (l : Line) (col c : ℕ)
    → (write_cell l col c).cells
      ≡ update (if leb l.len col then update (fill l.cells l.len col) col 0 else l.cells) col c
unfolding write_cell grow_line mark_line
write_cell-cells l col c = elim (Bool-cases (leb l.len col)) [
  | inl e ↦ elim (Bool-cases (update (fill l.cells l.len col) col 0 col == c)) [
    | inl f ↦ rw (e, f) refl
    | inr f ↦ rw (e, f) refl
  ]
  | inr e ↦ elim (Bool-cases (l.cells col == c)) [ inl f ↦ rw (e, f) refl | inr f ↦ rw (e, f) refl ]
]

-- A character put in a line is the only thing that changes in it.
pub put_line_text :
    (l : Line) (col c k : ℕ)
    → col < 255
    → line_text (write_cell l col c) k ≡ (if k == col then c else line_text l k)
unfolding fill
put_line_text l col c k small =
    ap (λ n. if ltb k n then (write_cell l col c).cells k else b' ') (write_cell-len l col c)
    ∙ ap (λ f. if ltb k (if leb l.len col then (col + 1) % 256 else l.len) then f k else b' ')
        (write_cell-cells l col c)
    ∙ elim (Bool-cases (k == col)) [
      | inl here ↦
          let q : k ≡ col = (==_iff k col).0 here in
          elim (Bool-cases (leb l.len col)) [
            | inl e ↦
                let in_line : ltb k ((col + 1) % 256) ≡ true = ground arith in
                rw (e, here, in_line)
                  (ap (update (update (fill l.cells l.len col) col 0) col c) q
                    ∙ update_self (update (fill l.cells l.len col) col 0) col c)
            | inr e ↦
                let in_line : ltb k l.len ≡ true = ground arith in
                rw (e, here, in_line) (ap (update l.cells col c) q ∙ update_self l.cells col c)
          ]
      | inr off ↦
          let ne : k ≢ col = λ q. absurd (ground arith) in
          elim (Bool-cases (leb l.len col)) [
            | inl e ↦
                rw (e, off)
                  (ap (λ x. if ltb k ((col + 1) % 256) then x else b' ')
                      (update_ne (update (fill l.cells l.len col) col 0) col c k ne
                        ∙ update_ne (fill l.cells l.len col) col 0 k ne)
                    ∙ ground arith)
            | inr e ↦
                rw (e, off)
                  (ap (λ x. if ltb k l.len then x else b' ') (update_ne l.cells col c k ne))
          ]
    ]

pub text_set_line :
    (s : Screen) (b a k : ℕ) (l : Line)
    → s.roll < s.scr_lns
    → b < s.scr_lns
    → a < s.scr_lns
    → text (set_line s (row s b) l) a k ≡ (if a == b then line_text l k else text s a k)
unfolding set_line
text_set_line s b a k l turn inside h = elim (Bool-cases (a == b)) [
  | inl e ↦
      let q : a ≡ b = (==_iff a b).0 e in
      rw e (
        subst (λ x. line_text (update s.picture (row s b) l (row s x)) k ≡ line_text l k) (sym q)
          (ap (λ x. line_text x k) (update_self s.picture (row s b) l)))
  | inr e ↦ rw e (
      ap (λ x. line_text x k)
        (update_ne s.picture (row s b) l (row s a)
          (row_ne a b s.roll s.scr_lns h inside turn (λ q. absurd (ground arith)))))
]

-- A printable byte, not in the last column.
pub outc_plain :
    (t : Setup) (s : Screen) (c : ℕ)
    → is_print c ≡ true
    → s.inansi ≡ false
    → s.cur_col < 255
    → s.cur_col + 1 < s.scr_cols
    → outc t s c
      ≡ (record (set_line s
          (row s s.cur_ln)
          (write_cell (s.picture (row s s.cur_ln)) s.cur_col c)) { cur_col = s.cur_col + 1 })
unfolding outc outc_line advance
outc_plain t s c shows out small inside =
    let n : (s.cur_col + 1) % 256 ≡ s.cur_col + 1 = mod-eq_of_lt (omega arith) in
    let e1 : leb s.scr_cols (s.cur_col + 1) ≡ false = ground arith in
    let e2 : (c == 27) ≡ false = ground arith in
    ap
      (λ b.
        if b
        then (if c == b'm' then record s { inansi = false } else s)
        else if c == 27 && not t.iscolor
        then record s { inansi = true }
        else outc_line t s c)
      out
    ∙ rw (e2, shows, n, e1) refl
