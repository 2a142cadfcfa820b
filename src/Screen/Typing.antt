-- ===== src/Screen/Typing.antt =====
-- What `outs` and `refresh` of bbssrc/src/screen.c together make a terminal show.
use native.Mathlib.Nat.{mod-eq_of_lt}
use firebird_bbs.Base.Maps.{update_self}
use firebird_bbs.Base.Text.{Bytes}
use firebird_bbs.Base.{
  ℕ, ◌+◌, ◌%◌, ◌≤◌, ◌<◌, ◌≡◌, refl, sym, ap, ◌∙◌, subst, Bool, true, false, ◌&&◌, [], ◌∷◌, length,
  ltb, ◌==◌, ==_iff, if◌then◌else◌, arith, Bool-cases, inl, inr,
}
use firebird_bbs.Screen.{Line, Screen, Setup, row, set_line, is_print, write_cell, outc, outs}
use firebird_bbs.Screen.Terminal.{Terminal}
use firebird_bbs.Screen.Refresh.{Pen, refresh}
use firebird_bbs.Screen.Pens.{view}
use firebird_bbs.Screen.Accuracy.{no_gap, Exact}
use firebird_bbs.Screen.Shows.{InStep, refresh-Refreshed}
use firebird_bbs.Screen.Writing.{write_cell-len, Fits, outc-InStep}
use firebird_bbs.Screen.Text.{line_text, text, text_set_line, put_line_text, outc_plain}

-- What column `k` of a line shows once a text is put there from column `x` on, if it showed `v`.
unfoldable pub overlay : Bytes → ℕ → ℕ → ℕ → ℕ
overlay [] x v k = v
overlay (c ∷ cs) x v k = if k == x then c else overlay cs (x + 1) v k

unfoldable pub printable : Bytes → Bool
printable [] = true
printable (c ∷ cs) = is_print c && printable cs

overlay_before : (cs : Bytes) (x v k : ℕ) → k < x → overlay cs x v k ≡ v
unfolding overlay
overlay_before [] x v k h = refl
overlay_before (c ∷ cs) x v k h =
    let e : (k == x) ≡ false = ground arith in rw e (overlay_before cs (x + 1) v k (omega arith))

overlay_next :
    (cs : Bytes) (x v c k : ℕ)
    → overlay cs (x + 1) (if k == x then c else v) k
      ≡ (if k == x then c else overlay cs (x + 1) v k)
overlay_next cs x v c k = elim (Bool-cases (k == x)) [
  | inl e ↦ rw e (overlay_before cs (x + 1) c k (ground arith))
  | inr e ↦ rw e refl
]

if_same : (b : Bool) (x : ℕ) → (if b then x else x) ≡ x
if_same true x = refl
if_same false x = refl

-- There is room for a text at the cursor: on the screen, before its last column, not behind old text that
-- the line no longer has, and not within a colour sequence that is left out.
pub record Room (t : Setup) (s : Screen) (str : Bytes) : Type 0 where
  pub ln : s.cur_ln < s.scr_lns
  pub col : s.cur_col + length str < t.t_columns
  pub cols : s.cur_col + length str < s.scr_cols
  pub small : s.cur_col + length str < 255
  pub gap : no_gap (s.picture (row s s.cur_ln)) s.cur_col ≡ true
  pub plain : s.inansi ≡ false

-- A text has been put on the line of the cursor, which has gone behind it.
pub record Typed (s : Screen) (str : Bytes) (s' : Screen) : Type 0 where
  pub shown :
      (a k : ℕ)
      → a < s.scr_lns
      → text s' a k ≡ (if a == s.cur_ln then overlay str s.cur_col (text s a k) k else text s a k)
  pub to_col : s'.cur_col ≡ s.cur_col + length str
  pub to_ln : s'.cur_ln ≡ s.cur_ln
  pub lns : s'.scr_lns ≡ s.scr_lns
  pub cols : s'.scr_cols ≡ s.scr_cols
  pub plain : s'.inansi ≡ s.inansi
  pub held :
      s.cur_col ≤ (s.picture (row s s.cur_ln)).len
      → s'.cur_col ≤ (s'.picture (row s' s'.cur_ln)).len

-- The screen after a printable byte.
abbrev after : Screen → ℕ → Screen
after s c =
    record (set_line s (row s s.cur_ln) (write_cell (s.picture (row s s.cur_ln)) s.cur_col c)) {
      cur_col = s.cur_col + 1;
    }

Room-after :
    (t : Setup) (s : Screen) (c : ℕ) (str : Bytes) → Room t s (c ∷ str) → Room t (after s c) str
unfolding set_line
Room-after t s c str r =
    let j = row s s.cur_ln in
    let l = s.picture j in
    let n = write_cell-len l s.cur_col c in
    let m : (s.cur_col + 1) % 256 ≡ s.cur_col + 1 = mod-eq_of_lt (omega (arith, r.small)) in
    record {
      ln = r.ln;
      col = omega (arith, r.col);
      cols = omega (arith, r.cols);
      small = omega (arith, r.small);
      gap =
          subst (λ x. no_gap x (s.cur_col + 1) ≡ true)
            (sym (update_self s.picture j (write_cell l s.cur_col c))) (ground arith);
      plain = r.plain;
    }

after-held :
    (s : Screen) (c : ℕ)
    → s.cur_col < 255
    → s.cur_col + 1 ≤ ((after s c).picture (row (after s c) s.cur_ln)).len
unfolding set_line
after-held s c small =
    let j = row s s.cur_ln in
    let n = write_cell-len (s.picture j) s.cur_col c in
    let m : (s.cur_col + 1) % 256 ≡ s.cur_col + 1 = mod-eq_of_lt (omega arith) in
    subst (λ x. s.cur_col + 1 ≤ x.len)
      (sym (update_self s.picture j (write_cell (s.picture j) s.cur_col c))) (ground arith)

Typed-after :
    (s : Screen) (c : ℕ) (str : Bytes) (s' : Screen)
    → s.cur_ln < s.scr_lns
    → s.roll < s.scr_lns
    → s.cur_col < 255
    → Typed (after s c) str s'
    → Typed s (c ∷ str) s'
unfolding overlay set_line
Typed-after s c str s' inside turn small g = record {
  shown = λ a k h.
      let l = s.picture (row s s.cur_ln) in
      let e = text_set_line s s.cur_ln a k (write_cell l s.cur_col c) turn inside h in
      let p = put_line_text l s.cur_col c k small in
      g.shown a k h ∙ elim (Bool-cases (a == s.cur_ln)) [
        | inl here ↦
            let q : a ≡ s.cur_ln = (==_iff a s.cur_ln).0 here in
            rw here (
              ap (λ v. overlay str (s.cur_col + 1) v k)
                ((rw here at e) ∙ p ∙ ap (λ b. if k == s.cur_col then c else text s b k) (sym q))
              ∙ overlay_next str s.cur_col (text s a k) c k)
        | inr off ↦ rw off (rw off at e)
      ];
  to_col = omega (arith, g.to_col);
  to_ln = g.to_ln;
  lns = g.lns;
  cols = g.cols;
  plain = g.plain;
  held = λ h. g.held (after-held s c small);
}

module _ (t : Setup) (term : Terminal t.t_lines t.t_columns) (start : term.T) where
  pub outs-Typed :
      (str : Bytes) (s : Screen) (p : Pen)
      → printable str ≡ true
      → Room t s str
      → InStep t term start s p
      → Typed s str (outs t s str) × InStep t term start (outs t s str) p
  unfolding outs printable overlay
  outs-Typed [] s p ok r i = (
    record {
      shown = λ a k h. sym (if_same (a == s.cur_ln) (text s a k));
      to_col = omega arith;
      to_ln = refl;
      lns = refl;
      cols = refl;
      plain = refl;
      held = λ h. h;
    },
    i,
  )
  outs-Typed (c ∷ str) s p ok r i =
      let shows : is_print c ≡ true = ground arith in
      let small : s.cur_col < 255 = omega (arith, r.small) in
      let fits : Fits t s = record {
        ln = r.ln;
        col = omega (arith, r.col);
        small = small;
        gap = r.gap;
      } in
      let e = outc_plain t s c shows r.plain small (omega (arith, r.cols)) in
      let i1 = outc-InStep t term start s p c (ground arith) fits i in
      let (g, i2) =
        outs-Typed str (outc t s c) p (ground arith)
          (subst (λ x. Room t x str) (sym e) (Room-after t s c str r)) i1 in
      (
        Typed-after s c str (outs t (outc t s c) str) r.ln i.turn small
            (subst (λ x. Typed x str (outs t (outc t s c) str)) e g),
        i2,
      )

  -- What may be shown as it is does not depend on how colours are shown.
  pub outs-setup :
      (u : Setup) (str : Bytes) (s : Screen)
      → printable str ≡ true
      → Room t s str
      → outs u s str ≡ outs t s str
  unfolding outs printable
  outs-setup u [] s ok r = refl
  outs-setup u (c ∷ str) s ok r =
      let shows : is_print c ≡ true = ground arith in
      let small : s.cur_col < 255 = omega (arith, r.small) in
      let inside : s.cur_col + 1 < s.scr_cols = omega (arith, r.cols) in
      let e = outc_plain u s c shows r.plain small inside in
      let f = outc_plain t s c shows r.plain small inside in
      ap (λ x. outs u x str) e
      ∙ outs-setup u str (after s c) (ground arith) (Room-after t s c str r)
      ∙ ap (λ x. outs t x str) (sym f)

  pub Exact-line_text : (l : Line) (r : ℕ → ℕ) (k : ℕ) → Exact l r → r k ≡ line_text l k
  Exact-line_text l r k x = elim (Bool-cases (ltb k l.len)) [
    | inl e ↦ rw e (x.text k (ground arith))
    | inr e ↦ rw e (x.rest k (ground arith))
  ]

  -- `outs` of printable bytes for which `Room` says that there is room on the line of the cursor, and
  -- `refresh`, while no key is waiting to be read, on a screen in step with the terminal: the terminal then shows the text from the
  -- cursor's place on, and in every other place what the picture showed before; its cursor is behind
  -- the text.
  pub outs_shown :
      (str : Bytes) (s : Screen) (p : Pen)
      → printable str ≡ true
      → Room t s str
      → InStep t term start s p
      → let v = view t term start (refresh t 0 (outs t s str) p).1 in
        ((a k : ℕ)
          → a < s.scr_lns
          → term.shown v a k
            ≡ (if a == s.cur_ln then overlay str s.cur_col (text s a k) k else text s a k))
        × (term.col v ≡ s.cur_col + length str)
        × (term.line v ≡ s.cur_ln)
  outs_shown str s p ok r i =
      let (g, i1) = outs-Typed str s p ok r i in
      let d = (refresh-Refreshed t term start (outs t s str) p i1).displayed in
      let (col, line) =
        d.cursor (omega (arith, g.to_col, r.col)) (omega (arith, g.to_ln, r.ln, i.height)) in
      (
        λ a k h. Exact-line_text _ _ k (d.exact a (omega (arith, h, g.lns))) ∙ g.shown a k h,
        col ∙ g.to_col,
        line ∙ g.to_ln,
      )
