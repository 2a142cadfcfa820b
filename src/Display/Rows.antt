-- ===== src/Display/Rows.antt =====
-- A row of the window of bbssrc/src/edit.c: what `strnput` and `clrtoeol` leave in it.
use native.Mathlib.Nat.{mod-eq_of_lt}
use firebird_bbs.Base.Text.{Bytes}
use firebird_bbs.Base.{
  ℕ, zero, suc, ◌+◌, ◌-◌, ◌≤◌, ◌<◌, ◌≡◌, refl, sym, ap, ◌∙◌, subst, Bool, true, false, ◌&&◌, ◌||◌,
  [], ◌∷◌, length, take, length-take, map, ltb, leb, ◌==◌, ==_iff, if◌then◌else◌, arith, Bool-cases,
  inl, inr,
}
use firebird_bbs.Screen.{Screen, Setup, row, set_line, move, is_print, clrtoeol, outc, outs}
use firebird_bbs.Screen.Terminal.{Terminal}
use firebird_bbs.Screen.Refresh.{Pen}
use firebird_bbs.Screen.Shows.{InStep}
use firebird_bbs.Screen.Writing.{Cuts, clrtoeol-InStep}
use firebird_bbs.Screen.Text.{text}
use firebird_bbs.Screen.Grids.{clrtoeol_text}
use firebird_bbs.Screen.Typing.{overlay, printable, Room, outs-Typed, outs-setup}
use firebird_bbs.Display.{strlen_max, strnput}

-- An escape is shown as an asterisk.
abbrev pub shown_as : ℕ → ℕ
shown_as c = if c == 27 then b'*' else c

-- What a row shows of a text.
abbrev pub part : Bytes → Bytes
part cs = take (strlen_max - 1) (map shown_as cs)

-- Bytes that are printable or an escape.
abbrev pub showable : Bytes → Bool
showable [] = true
showable (c ∷ cs) = (is_print c || c == 27) && showable cs

take-nil : (n : ℕ) → take {A = ℕ} n [] ≡ []
take-nil zero = refl
take-nil (suc n) = refl

pub strnput-outs :
    (t : Setup) (count : ℕ) (cs : Bytes) (s : Screen)
    → strnput t count cs s ≡ outs t s (take (strlen_max - 1 - count) (map shown_as cs))
unfolding strnput outs
strnput-outs t count [] s = ap (outs t s) (sym (take-nil (strlen_max - 1 - count)))
strnput-outs t count (c ∷ cs) s = elim (Bool-cases (ltb (count + 1) strlen_max)) [
  | inl e ↦
      let n : strlen_max - 1 - count ≡ suc (strlen_max - 1 - (count + 1)) = ground arith in
      rw (e, n) (strnput-outs t (count + 1) cs (outc t s (shown_as c)))
  | inr e ↦ let n : strlen_max - 1 - count ≡ 0 = ground arith in rw (e, n) refl
]

pub printable-part :
    (n : ℕ) (cs : Bytes) → showable cs ≡ true → printable (take n (map shown_as cs)) ≡ true
unfolding printable
printable-part zero cs h = refl
printable-part (suc n) [] h = refl
printable-part (suc n) (c ∷ cs) h = let rest = printable-part n cs (ground arith) in ground arith

pub part_short : (cs : Bytes) → length (part cs) < 80
part_short cs = omega (arith, length-take (strlen_max - 1) (map shown_as cs))

-- Where the text is it does not matter what there was.
overlay_inside :
    (cs : Bytes) (x v k : ℕ) → x ≤ k → k < x + length cs → overlay cs x v k ≡ overlay cs x b' ' k
unfolding overlay
overlay_inside [] x v k h l = absurd (omega (arith, l, h))
overlay_inside (c ∷ cs) x v k h l = elim (Bool-cases (k == x)) [
  | inl e ↦ rw e refl
  | inr e ↦ rw e (overlay_inside cs (x + 1) v k (ground arith) (omega (arith, l)))
]

-- The screen is wide enough for a row.
pub record Wide (t : Setup) (s : Screen) : Type 0 where
  pub col : 79 < t.t_columns
  pub cols : 79 < s.scr_cols
  pub plain : s.inansi ≡ false

-- A text has been put at the start of row `i`; what stands behind it there is still to be cleared.
pub record Begun (s : Screen) (i : ℕ) (str : Bytes) (s1 : Screen) : Type 0 where
  pub lns : s1.scr_lns ≡ s.scr_lns
  pub cols : s1.scr_cols ≡ s.scr_cols
  pub plain : s1.inansi ≡ s.inansi
  pub ln : s1.cur_ln ≡ i
  pub col : s1.cur_col ≡ length str
  pub held : s1.cur_col ≤ (s1.picture (row s1 s1.cur_ln)).len
  pub here : (k : ℕ) → k < length str → text s1 i k ≡ overlay str 0 b' ' k
  pub off : (a k : ℕ) → a < s.scr_lns → (a == i) ≡ false → text s1 a k ≡ text s a k

-- Row `i` shows a text and nothing else, and the other rows what they showed.
pub record Drawn (s : Screen) (i : ℕ) (str : Bytes) (s2 : Screen) : Type 0 where
  pub lns : s2.scr_lns ≡ s.scr_lns
  pub cols : s2.scr_cols ≡ s.scr_cols
  pub plain : s2.inansi ≡ s.inansi
  pub shown :
      (a k : ℕ)
      → a < s.scr_lns
      → text s2 a k ≡ (if a == i then overlay str 0 b' ' k else text s a k)

overlay_behind : (cs : Bytes) (x v k : ℕ) → x + length cs ≤ k → overlay cs x v k ≡ v
unfolding overlay
overlay_behind [] x v k h = refl
overlay_behind (c ∷ cs) x v k h =
    let e : (k == x) ≡ false = ground arith in rw e (overlay_behind cs (x + 1) v k (omega arith))

pub move_to_row :
    (s : Screen) (i : ℕ) → i < 256 → move s i 0 ≡ (record s { cur_col = 0; cur_ln = i })
unfolding move
move_to_row s i h = ap (λ n. record s { cur_col = 0; cur_ln = n }) (mod-eq_of_lt h)

module _ (t : Setup) (term : Terminal t.t_lines t.t_columns) (start : term.T) where
  pub Begun-Drawn :
      (s s1 : Screen) (p : Pen) (i : ℕ) (str : Bytes)
      → i < s.scr_lns
      → length str < 80
      → Wide t s
      → Begun s i str s1
      → InStep t term start s1 p
      → Drawn s i str (clrtoeol s1) × InStep t term start (clrtoeol s1) p
  unfolding clrtoeol set_line
  Begun-Drawn s s1 p i str inside short w g step =
      let ln : s1.cur_ln < s1.scr_lns = omega (arith, g.ln, g.lns, inside) in
      let held : leb s1.cur_col (s1.picture (row s1 s1.cur_ln)).len ≡ true =
        let h = g.held in ground arith in
      let cuts : Cuts t s1 = record {
        ln = ln;
        col = omega (arith, g.col, short, w.col);
        small = omega (arith, g.col, short);
        gap = rw held refl;
      } in
      (
        record {
          lns = g.lns;
          cols = g.cols;
          plain = g.plain;
          shown = λ a k h.
              clrtoeol_text s1 a k step.turn ln (omega (arith, h, g.lns)) g.held
              ∙ ap (λ b. if a == b && leb s1.cur_col k then b' ' else text s1 a k) g.ln
              ∙ ap (λ n. if a == i && leb n k then b' ' else text s1 a k) g.col
              ∙ elim (Bool-cases (a == i)) [
                | inl e ↦ elim (Bool-cases (leb (length str) k)) [
                  | inl f ↦ rw (e, f) (sym (overlay_behind str 0 b' ' k (ground arith)))
                  | inr f ↦
                      let q : a ≡ i = (==_iff a i).0 e in
                      rw (e, f) (ap (λ b. text s1 b k) q ∙ g.here k (ground arith))
                ]
                | inr e ↦ rw e (g.off a k h e)
              ];
        },
        clrtoeol-InStep t term start s1 p cuts step,
      )

  pub start_row :
      (s : Screen) (p : Pen) (i : ℕ) (u : Setup) (str : Bytes)
      → i < s.scr_lns
      → printable str ≡ true
      → length str < 80
      → Wide t s
      → InStep t term start s p
      → Begun s i str (outs u (move s i 0) str) × InStep t term start (outs u (move s i 0) str) p
  start_row s p i u str inside ok short w step =
      let s0 = record s { cur_col = 0; cur_ln = i } in
      let e = move_to_row s i (omega (arith, inside, step.short)) in
      let room : Room t s0 str = record {
        ln = inside;
        col = omega (arith, short, w.col);
        cols = omega (arith, short, w.cols);
        small = omega (arith, short);
        gap = let f : leb 0 (s.picture (row s i)).len ≡ true = ground arith in rw f refl;
        plain = w.plain;
      } in
      let (g, i1) = outs-Typed t term start str s0 p ok room step in
      let s1 = outs t s0 str in
      let at : Begun s i str s1 = record {
        lns = g.lns;
        cols = g.cols;
        plain = g.plain;
        ln = g.to_ln;
        col = g.to_col ∙ omega arith;
        held = g.held (omega arith);
        here = λ k h.
            let same : (i == i) ≡ true = ground arith in
            let within : leb (length str) k ≡ false = ground arith in
            (rw same at (g.shown i k inside))
            ∙ overlay_inside str 0 (text s i k) k (omega arith) (omega (arith, h));
        off = λ a k h o. rw o at (g.shown a k h);
      } in
      subst (λ x. Begun s i str x × InStep t term start x p)
        (sym (ap (λ x. outs u x str) e ∙ outs-setup t term start u str s0 ok room)) (at, i1)
