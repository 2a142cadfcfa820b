-- ===== src/Screen/Drawing.antt =====
-- A part of a line of the picture, as `standoutput` and `output` of bbssrc/src/screen.c send it.
use firebird_bbs.Base.{
  ℕ, zero, suc, ◌+◌, ◌-◌, ◌≤◌, ◌<◌, ◌≡◌, refl, ◌∙◌, subst, max, min, Bool, true, false, ◌||◌, ltb,
  leb, if◌then◌else◌, arith, Bool-cases, inl, inr,
}
use firebird_bbs.Screen.{Line, Setup}
use firebird_bbs.Screen.Terminal.{Command, stand_up, stand_down, Terminal}
use firebird_bbs.Screen.Refresh.{Pen, emit, output, standoutput, draw}
use firebird_bbs.Screen.Pens.{
  paint, Shown, Shown-ext, stand_up-Shown, stand_down-Shown, output-Shown,
}

paint-paint :
    (f : ℕ → ℕ → ℕ) (y a b c : ℕ) (cells : ℕ → ℕ)
    → a ≤ b
    → b ≤ c
    → (i k : ℕ) → paint (paint f y a b cells) y b c cells i k ≡ paint f y a c cells i k
paint-paint f y a b c cells h l i k = ground arith

paint-none : (f : ℕ → ℕ → ℕ) (y a : ℕ) (cells : ℕ → ℕ) (i k : ℕ) → f i k ≡ paint f y a a cells i k
paint-none f y a cells i k = ground arith

-- Where the highlighted part starts no later than it ends.
abbrev pub Standing : Line → Type 0
Standing l = l.stand ≡ true → l.sso ≤ l.eso

-- The pen's own notes stay while it draws.
pub record SameNotes (p q : Pen) : Type 0 where
  pub col : q.tc_col ≡ p.tc_col
  pub line : q.tc_line ≡ p.tc_line

same_notes : (p : Pen) → SameNotes p p
same_notes p = record { col = refl; line = refl }

SameNotes-trans : (p q r : Pen) → SameNotes p q → SameNotes q r → SameNotes p r
SameNotes-trans p q r a b = record { col = b.col ∙ a.col; line = b.line ∙ a.line }

emit-SameNotes : (p : Pen) (c : Command) → SameNotes p (emit p c)
unfolding emit
emit-SameNotes p c = record { col = refl; line = refl }

output-SameNotes :
    (n : ℕ) (p : Pen) (cells : ℕ → ℕ) (from : ℕ) → SameNotes p (output p cells from n)
unfolding output
output-SameNotes zero p cells from = same_notes p
output-SameNotes (suc n) p cells from =
    SameNotes-trans p _ _ (emit-SameNotes p _) (output-SameNotes n _ cells (from + 1))

if-SameNotes :
    (p q r : Pen) (c : Bool) → SameNotes p q → SameNotes p r → SameNotes p (if c then q else r)
if-SameNotes p q r true a b = a
if-SameNotes p q r false a b = b

pub draw-SameNotes : (p : Pen) (l : Line) (from to : ℕ) → SameNotes p (draw p l from to)
unfolding draw standoutput
draw-SameNotes p l from to =
    let plain = output-SameNotes (to - from) p l.cells from in
    let first = output-SameNotes (l.sso - from) p l.cells from in
    let p1 = if ltb from l.sso then output p l.cells from (l.sso - from) else p in
    let n1 = if-SameNotes p _ _ (ltb from l.sso) first (same_notes p) in
    let up = emit-SameNotes p1 stand_up in
    let mid =
      output-SameNotes (min l.eso to - max l.sso from) (emit p1 stand_up) l.cells
        (max l.sso from) in
    let p2 =
      emit (output (emit p1 stand_up) l.cells (max l.sso from) (min l.eso to - max l.sso from))
        stand_down in
    let n2 =
      SameNotes-trans p p1 p2 n1
        (SameNotes-trans p1 _ p2 up (SameNotes-trans _ _ p2 mid (emit-SameNotes _ stand_down))) in
    let n3 = SameNotes-trans p p2 _ n2 (output-SameNotes (to - l.eso) p2 l.cells l.eso) in
    if-SameNotes p _ _ l.stand
      (if-SameNotes p _ _ (leb l.eso from || leb to l.sso) plain
        (if-SameNotes p _ _ (ltb l.eso to) n3 n2))
      plain

module _ (t : Setup) (term : Terminal t.t_lines t.t_columns) (start : term.T) where
  output_to-Shown :
      (p : Pen) (f : ℕ → ℕ → ℕ) (cells : ℕ → ℕ) (from to y : ℕ)
      → from ≤ to
      → to < t.t_columns
      → Shown t term start p f from y
      → Shown t term start (output p cells from (to - from)) (paint f y from to cells) to y
  output_to-Shown p f cells from to y h inside s =
      let e : from + (to - from) ≡ to = omega arith in
      subst (λ x. Shown t term start (output p cells from (to - from)) (paint f y from x cells) x y)
        e (output-Shown t term start (to - from) p f cells from y (omega arith) s)

  pub draw-Shown :
      (p : Pen) (f : ℕ → ℕ → ℕ) (l : Line) (from to y : ℕ)
      → from ≤ to
      → to < t.t_columns
      → Standing l
      → Shown t term start p f from y
      → Shown t term start (draw p l from to) (paint f y from to l.cells) to y
  unfolding draw standoutput
  draw-Shown p f l from to y h inside st s = elim (Bool-cases l.stand) [
    | inr plain ↦ rw plain (output_to-Shown p f l.cells from to y h inside s)
    | inl high ↦ elim (Bool-cases (leb l.eso from || leb to l.sso)) [
      | inl away ↦ rw (high, away) (output_to-Shown p f l.cells from to y h inside s)
      | inr over ↦
          let order = st high in
          let st_start = max l.sso from in
          let st_end = min l.eso to in
          let p1 = if ltb from l.sso then output p l.cells from (l.sso - from) else p in
          let a : from ≤ st_start = omega arith in
          let b : st_start ≤ st_end = ground arith in
          let c : st_end ≤ to = omega arith in
          let s1 : Shown t term start p1 (paint f y from st_start l.cells) st_start y =
            elim (Bool-cases (ltb from l.sso)) [
              | inl before ↦
                  let e : l.sso ≡ st_start = ground arith in
                  rw before (
                    subst
                      (λ x.
                        Shown t term start (output p l.cells from (l.sso - from))
                          (paint f y from x l.cells) x y)
                      e (output_to-Shown p f l.cells from l.sso y (ground arith) (ground arith) s))
              | inr behind ↦
                  let e : from ≡ st_start = ground arith in
                  rw behind (
                    subst (λ x. Shown t term start p (paint f y from x l.cells) x y) e
                      (Shown-ext t term start p f (paint f y from from l.cells) from y
                        (λ i k u. paint-none f y from l.cells i k) s))
            ] in
          let s2 = stand_down-Shown t term start _ _ st_end y (
            output_to-Shown _ _ l.cells st_start st_end y b (omega arith)
              (stand_up-Shown t term start p1 _ st_start y s1)) in
          let p2 =
            emit (output (emit p1 stand_up) l.cells st_start (st_end - st_start)) stand_down in
          let s3 : Shown t term start p2 (paint f y from st_end l.cells) st_end y =
            Shown-ext t term start p2 _ _ st_end y
              (λ i k u. paint-paint f y from st_start st_end l.cells a b i k) s2 in
          rw (high, over)
            (elim (Bool-cases (ltb l.eso to)) [
              | inl more ↦
                  let e : st_end ≡ l.eso = ground arith in
                  let s4 = subst (λ x. Shown t term start p2 (paint f y from x l.cells) x y) e s3 in
                  rw more (
                    Shown-ext t term start _ _ (paint f y from to l.cells) to y
                      (λ i k u.
                        paint-paint f y from l.eso to l.cells (ground arith) (ground arith) i k)
                      (output_to-Shown p2 _ l.cells l.eso to y (ground arith) inside s4))
              | inr none_left ↦
                  let e : st_end ≡ to = ground arith in
                  rw none_left
                    (subst (λ x. Shown t term start p2 (paint f y from x l.cells) x y) e s3)
            ])
    ]
  ]
