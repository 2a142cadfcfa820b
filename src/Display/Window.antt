-- ===== src/Display/Window.antt =====
-- The window of bbssrc/src/edit.c: after `display_buffer` and `refresh` the terminal shows the lines of the text.
use firebird_bbs.Base.Text.{Bytes}
use firebird_bbs.Base.{
  ℕ, zero, suc, ◌+◌, ◌-◌, ◌≤◌, ◌<◌, ◌≡◌, refl, sym, ap, ◌∙◌, true, false, ◌&&◌, Option, some, none,
  List, [], ◌∷◌, length, drop, ltb, leb, ◌==◌, if◌then◌else◌, arith, Bool-cases, inl, inr,
}
use firebird_bbs.Editor.{Ptr, Buffer}
use firebird_bbs.Editor.Heap.{Cell, head_of, Seg}
use firebird_bbs.Screen.{Screen, Setup, clrtoeol}
use firebird_bbs.Screen.Terminal.{Terminal}
use firebird_bbs.Screen.Refresh.{Pen, refresh}
use firebird_bbs.Screen.Pens.{view}
use firebird_bbs.Screen.Shows.{InStep, refresh-Refreshed}
use firebird_bbs.Screen.Text.{text}
use firebird_bbs.Screen.Typing.{overlay, Exact-line_text}
use firebird_bbs.Display.{shift_of, display_rows, msgline, display_buffer}
use firebird_bbs.Display.Rows.{part, part_short, Wide, Begun-Drawn}
use firebird_bbs.Display.Lines.{tilde, Plain, first_row, tail_of, any_row}

-- What row `a` of a window shows in column `k`: the line with index `a`, from column `shift` on, or a
-- tilde behind the end of the text.
abbrev pub window : ℕ → List Cell → ℕ → ℕ → ℕ
window shift [] a k = overlay tilde 0 b' ' k
window shift (c ∷ cs) zero k = overlay (part (drop shift c.bytes)) 0 b' ' k
window shift (c ∷ cs) (suc a) k = window shift cs a k

window-first :
    (shift k : ℕ) (cs : List Cell) → window shift cs 0 k ≡ overlay (first_row shift cs) 0 b' ' k
window-first shift k [] = refl
window-first shift k (c ∷ cs) = refl

window-tail :
    (shift a k : ℕ) (cs : List Cell) → window shift cs (suc a) k ≡ window shift (tail_of cs) a k
window-tail shift a k [] = refl
window-tail shift a k (c ∷ cs) = refl

-- The first row, and those behind it.
next_rows :
    (i n a shift k : ℕ) (cs : List Cell) (v old : ℕ)
    → v ≡ (if a == i then overlay (first_row shift cs) 0 b' ' k else old)
    → (if leb (i + 1) a && ltb a (i + 1 + n) then window shift (tail_of cs) (a - (i + 1)) k else v)
      ≡ (if leb i a && ltb a (i + suc n) then window shift cs (a - i) k else old)
next_rows i n a shift k cs v old h = elim (Bool-cases (a == i)) [
  | inl e ↦
      let q : 0 ≡ a - i = ground arith in
      let late : (leb (i + 1) a && ltb a (i + 1 + n)) ≡ false = ground arith in
      let first : (leb i a && ltb a (i + suc n)) ≡ true = ground arith in
      rw (late, first)
        ((rw e at h) ∙ sym (window-first shift k cs) ∙ ap (λ x. window shift cs x k) q)
  | inr e ↦ elim (Bool-cases (leb (i + 1) a && ltb a (i + 1 + n))) [
    | inl f ↦
        let q : suc (a - (i + 1)) ≡ a - i = ground arith in
        let among : (leb i a && ltb a (i + suc n)) ≡ true = ground arith in
        rw (f, among) (sym (window-tail shift (a - (i + 1)) k cs) ∙ ap (λ x. window shift cs x k) q)
    | inr f ↦
        let out : (leb i a && ltb a (i + suc n)) ≡ false = ground arith in rw (f, out) (rw e at h)
  ]
]

module _ (t : Setup) (term : Terminal t.t_lines t.t_columns) (start : term.T) where
  -- The loop has shown `n` rows from row `i` on.
  pub record Shown (s : Screen) (p : Pen) (i n shift : ℕ) (cs : List Cell) (o : Option Screen)
      : Type 0 where
    pub screen : Screen
    pub runs : o ≡ some screen
    pub lns : screen.scr_lns ≡ s.scr_lns
    pub rows :
        (a k : ℕ)
        → a < s.scr_lns
        → text screen a k
          ≡ (if leb i a && ltb a (i + n) then window shift cs (a - i) k else text s a k)
    pub step : InStep t term start screen p

  display_rows-Shown :
      (n : ℕ) (s : Screen) (p : Pen) (i shift : ℕ) (u : Setup) (b : Buffer) (before : Ptr)
      (cs : List Cell)
      → i + n ≤ s.scr_lns
      → Seg b.store before cs none
      → Plain cs
      → Wide t s
      → InStep t term start s p
      → Shown s p i n shift cs (display_rows n false shift b (head_of cs none) i u s)
  unfolding display_rows
  display_rows-Shown zero s p i shift u b before cs h seg plain w step = record {
    screen = s;
    runs = refl;
    lns = refl;
    rows = λ a k l. let e : (leb i a && ltb a (i + 0)) ≡ false = ground arith in rw e refl;
    step = step;
  }
  display_rows-Shown (suc n) s p i shift u b before cs h seg plain w step =
      let r = any_row t term start s p i shift u b before cs (omega arith) seg plain w step in
      let (d, next) =
        Begun-Drawn t term start s r.screen p i (first_row shift cs) (omega arith) (short cs) w
          r.begun r.step in
      let w2 : Wide t (clrtoeol r.screen) = record {
        col = w.col;
        cols = omega (arith, w.cols, d.cols);
        plain = d.plain ∙ w.plain;
      } in
      let (before2, seg2) = seg_tail cs before seg in
      let g =
        display_rows-Shown n (clrtoeol r.screen) p (i + 1) shift r.setup b before2 (tail_of cs)
          (omega (arith, h, d.lns)) seg2 (plain_tail cs plain) w2 next in
      record {
        screen = g.screen;
        runs = rw r.runs g.runs;
        lns = g.lns ∙ d.lns;
        rows = λ a k l.
            g.rows a k (omega (arith, l, d.lns)) ∙ next_rows i n a shift k cs _ _ (d.shown a k l);
        step = g.step;
      }
    where
      short : (cs : List Cell) → length (first_row shift cs) < 80
      short [] = omega arith
      short (c ∷ cs) = part_short (drop shift c.bytes)

      plain_tail : (cs : List Cell) → Plain cs → Plain (tail_of cs)
      plain_tail [] p = p
      plain_tail (c ∷ cs) (a, e, p) = p

      seg_tail :
          (cs : List Cell) (before : Ptr)
          → Seg b.store before cs none
          → (q : Ptr) × Seg b.store q (tail_of cs) none
      seg_tail [] before s = (before, s)
      seg_tail (c ∷ cs) before (e, s) = (some c.addr, s)

  from_top :
      (n a k shift old : ℕ) (cs : List Cell)
      → (if leb 0 a && ltb a (0 + n) then window shift cs (a - 0) k else old)
        ≡ (if ltb a n then window shift cs a k else old)
  from_top n a k shift old cs =
      let e : (leb 0 a && ltb a (0 + n)) ≡ ltb a n = ground arith in
      let f : a - 0 ≡ a = omega arith in rw (e, f) refl

  -- `display_buffer`, while colours and the message line are off, of lines that are not marked and hold
  -- printable bytes and escapes only, on a screen of 80 columns or more that is in step with the
  -- terminal: no null or freed pointer is followed, and after `refresh`, while no key is waiting to be
  -- read, each row of the terminal but the last shows its line of the text, from the first line of the
  -- window on: the bytes from column `shift_of` on, at most 79, with asterisks for escapes and blanks
  -- behind them, and a tilde behind the end of the text. The last row shows what the picture showed
  -- there.
  pub display_buffer_shown :
      (s : Screen) (p : Pen) (b : Buffer) (before : Ptr) (cs : List Cell) (status : Bytes)
      → Seg b.store before cs none
      → Plain cs
      → Wide t s
      → InStep t term start s p
      → (s1 : Screen) × (display_buffer t false false status b (head_of cs none) s ≡ some s1)
        × ((a k : ℕ)
            → a < t.t_lines
            → term.shown (view t term start (refresh t 0 s1 p).1) a k
              ≡ (if ltb a (t.t_lines - 1) then window (shift_of b.currpnt) cs a k else text s a k))
  unfolding display_buffer msgline
  display_buffer_shown s p b before cs status seg plain w step =
      let g =
        display_rows-Shown (t.t_lines - 1) s p 0 (shift_of b.currpnt) t b before cs
          (omega (arith, step.height)) seg plain w step in
      let d = (refresh-Refreshed t term start g.screen p g.step).displayed in
      (
        g.screen,
        rw g.runs refl,
        λ a k h.
            Exact-line_text t term start _ _ k (d.exact a (omega (arith, h, g.lns, step.height)))
            ∙ g.rows a k (omega (arith, h, step.height))
            ∙ from_top (t.t_lines - 1) a k (shift_of b.currpnt) (text s a k) cs,
      )
