-- ===== src/Display/Lines.antt =====
-- The rows of the window of bbssrc/src/edit.c: a line of the text, or what stands behind its end.
use firebird_bbs.Base.Text.{Bytes}
use firebird_bbs.Base.{
  ℕ, zero, suc, ◌≤◌, ◌<◌, ◌≡◌, refl, sym, ◌∙◌, subst, true, false, Option, some, none, List, [],
  ◌∷◌, length, drop, leb, arith, Bool-cases, inl, inr,
}
use firebird_bbs.Editor.{Ptr, Buffer, deref}
use firebird_bbs.Editor.Heap.{Cell, head_of, line_of, Seg}
use firebird_bbs.Screen.{Screen, Setup, row, set_line, move, clrtoeol, outs}
use firebird_bbs.Screen.Terminal.{Terminal}
use firebird_bbs.Screen.Refresh.{Pen}
use firebird_bbs.Screen.Shows.{InStep}
use firebird_bbs.Screen.Writing.{Cuts, clrtoeol-InStep}
use firebird_bbs.Screen.Grids.{clrtoeol_text}
use firebird_bbs.Screen.Typing.{printable}
use firebird_bbs.Screen.Format.{
  str, prints, format, format_item, convert_field, convert, convert_string, print_string,
  read_field, read_signs, read_val, or_null,
}
use firebird_bbs.Display.{as_tilde, is_marked, strnput, display_line, display_row}
use firebird_bbs.Display.Rows.{
  part, showable, strnput-outs, printable-part, part_short, Wide, Begun, move_to_row, start_row,
}

abbrev pub tilde : Bytes
tilde = b'~' ∷ []

-- No line is marked, and all bytes are printable or an escape.
abbrev pub Plain : List Cell → Type 0
Plain [] = true ≡ true
Plain (c ∷ cs) = (is_marked c.marked ≡ false) × (showable c.bytes ≡ true) × Plain cs

abbrev pub first_row : ℕ → List Cell → Bytes
first_row shift [] = tilde
first_row shift (c ∷ cs) = part (drop shift c.bytes)

abbrev pub tail_of : List Cell → List Cell
tail_of [] = []
tail_of (c ∷ cs) = cs

drop_all : (n : ℕ) (cs : Bytes) → length cs ≤ n → drop n cs ≡ []
drop_all zero [] h = refl
drop_all zero (c ∷ cs) h = absurd (omega arith)
drop_all (suc n) [] h = refl
drop_all (suc n) (c ∷ cs) h = drop_all n cs (omega arith)

showable-drop : (n : ℕ) (cs : Bytes) → showable cs ≡ true → showable (drop n cs) ≡ true
showable-drop zero cs h = h
showable-drop (suc n) [] h = refl
showable-drop (suc n) (c ∷ cs) h = showable-drop n cs (ground arith)

tilde_printed :
    (u : Setup) (s : Screen) → prints u s as_tilde (str (some []) ∷ []) ≡ some (outs u s tilde)
unfolding prints format format_item convert_field convert convert_string print_string read_field
    read_signs read_val or_null
tilde_printed u s = refl

module _ (t : Setup) (term : Terminal t.t_lines t.t_columns) (start : term.T) where
  -- A row has been begun, and the loop goes on with the lines `q`.
  pub record RowDone (s : Screen) (p : Pen) (i : ℕ) (bytes : Bytes) (q : Ptr)
      (o : Option (Ptr × Setup × Screen)) : Type 0 where
    pub setup : Setup
    pub screen : Screen
    pub runs : o ≡ some (q, setup, screen)
    pub begun : Begun s i bytes screen
    pub step : InStep t term start screen p

  cleared_row :
      (s : Screen) (p : Pen) (i : ℕ)
      → i < s.scr_lns
      → Wide t s
      → InStep t term start s p
      → Begun s i [] (clrtoeol (move s i 0)) × InStep t term start (clrtoeol (move s i 0)) p
  unfolding clrtoeol set_line
  cleared_row s p i inside w step =
      let s0 = record s { cur_col = 0; cur_ln = i } in
      let cuts : Cuts t s0 = record {
        ln = inside;
        col = omega (arith, w.col);
        small = omega arith;
        gap = let f : leb 0 (s.picture (row s i)).len ≡ true = ground arith in rw f refl;
      } in
      let at : Begun s i [] (clrtoeol s0) = record {
        lns = refl;
        cols = refl;
        plain = refl;
        ln = refl;
        col = refl;
        held = omega arith;
        here = λ k h. absurd (omega arith);
        off = λ a k h e. clrtoeol_text s0 a k step.turn inside h (omega arith) ∙ rw e refl;
      } in
      subst (λ x. Begun s i [] (clrtoeol x) × InStep t term start (clrtoeol x) p)
        (sym (move_to_row s i (omega (arith, inside, step.short))))
        (at, clrtoeol-InStep t term start s0 p cuts step)

  -- A line of the text that is not marked.
  text_row :
      (s : Screen) (p : Pen) (i shift : ℕ) (u : Setup) (b : Buffer) (before : Ptr) (c : Cell)
      (cs : List Cell)
      → i < s.scr_lns
      → b.store c.addr ≡ some (line_of before c (head_of cs none))
      → is_marked c.marked ≡ false
      → showable c.bytes ≡ true
      → Wide t s
      → InStep t term start s p
      → RowDone s p i
          (part (drop shift c.bytes))
          (head_of cs none)
          (display_row false shift b (some c.addr) i u (move s i 0))
  unfolding display_row display_line deref
  text_row s p i shift u b before c cs inside at plain ok w step =
      elim (Bool-cases (leb shift (length c.bytes))) [
        | inl e ↦
            let u1 = record u { showansi = false } in
            let bytes = part (drop shift c.bytes) in
            let (begun, next) =
              start_row t term start s p i u1 bytes inside
                (printable-part 79 (drop shift c.bytes) (showable-drop shift c.bytes ok))
                (part_short (drop shift c.bytes)) w step in
            let same = strnput-outs u1 0 (drop shift c.bytes) (move s i 0) in
            record {
              setup = u1;
              screen = strnput u1 0 (drop shift c.bytes) (move s i 0);
              runs = rw (at, plain, e) refl;
              begun = subst (λ x. Begun s i bytes x) (sym same) begun;
              step = subst (λ x. InStep t term start x p) (sym same) next;
            }
        | inr e ↦
            let (begun, next) = cleared_row s p i inside w step in
            let gone : [] ≡ drop shift c.bytes = sym (drop_all shift c.bytes (ground arith)) in
            record {
              setup = u;
              screen = clrtoeol (move s i 0);
              runs = rw (at, plain, e) refl;
              begun = subst (λ x. Begun s i (part x) (clrtoeol (move s i 0))) gone begun;
              step = next;
            }
      ]

  -- A row behind the end of the text.
  tilde_row :
      (s : Screen) (p : Pen) (i shift : ℕ) (u : Setup) (b : Buffer)
      → i < s.scr_lns
      → Wide t s
      → InStep t term start s p
      → RowDone s p i tilde none (display_row false shift b none i u (move s i 0))
  unfolding display_row
  tilde_row s p i shift u b inside w step =
      let (begun, next) =
        start_row t term start s p i u tilde inside (unfold printable in refl) (omega arith) w
          step in
      record {
        setup = u;
        screen = outs u (move s i 0) tilde;
        runs = rw (tilde_printed u (move s i 0)) refl;
        begun = begun;
        step = next;
      }

  pub any_row :
      (s : Screen) (p : Pen) (i shift : ℕ) (u : Setup) (b : Buffer) (before : Ptr) (cs : List Cell)
      → i < s.scr_lns
      → Seg b.store before cs none
      → Plain cs
      → Wide t s
      → InStep t term start s p
      → RowDone s p i
          (first_row shift cs)
          (head_of (tail_of cs) none)
          (display_row false shift b (head_of cs none) i u (move s i 0))
  any_row s p i shift u b before [] inside seg plain w step =
      tilde_row s p i shift u b inside w step
  any_row s p i shift u b before (c ∷ cs) inside (at, seg) (plain, ok, rest) w step =
      text_row s p i shift u b before c cs inside at plain ok w step
