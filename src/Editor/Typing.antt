-- ===== src/Editor/Typing.antt =====
-- The text and the cursor after `insert_char` of bbssrc/src/edit.c.
use firebird_bbs.Base.{
  ℕ, ◌+◌, ◌-◌, ◌≤◌, ◌<◌, ◌≡◌, refl, sym, ap, ◌∙◌, true, false, none, some, List, ◌∷◌, ◌++◌, ltb,
  leb, if◌then◌else◌, length, arith, Bool-cases, inl, inr, take, drop,
}
use firebird_bbs.Editor.{Ptr, Buffer, same_ptr, follow_split}
use firebird_bbs.Editor.Wrap.{
  wrap_margin, put_char, Sign, origin, leave_origin, insert_at, insert_char,
}
use firebird_bbs.Editor.Heap.{Cell, head_of, last_of}
use firebird_bbs.Editor.Linking.{eq_self, Shows, last_after}
use firebird_bbs.Editor.Deleting.{recell}
use firebird_bbs.Editor.Lines.{recell-Shows, deref-Shows}
use firebird_bbs.Editor.Flowing.{texts, short}
use firebird_bbs.Editor.Wrapping.{
  typed_line, cut_at, Typed, length-typed_line, put_char-line, wrap_line-Wrapped,
}

-- No line is the signature where no posted article is edited.
pub origin_other :
    (sign : Sign) (b : Buffer) (q : Ptr) → sign.editing ≡ false → origin sign b q ≡ some false
unfolding origin
origin_other sign b none e = refl
origin_other sign b (some q) e = rw e refl

leave_origin_other :
    (sign : Sign) (b : Buffer) (p : Ptr) → sign.editing ≡ false → leave_origin sign b p ≡ some b
unfolding leave_origin
leave_origin_other sign b p e = rw (origin_other sign b b.currline e) refl

-- How far the cursor goes in a cut, where it was at `pnt`.
abbrev pub moved_by : ℕ → ℕ → ℕ × ℕ
moved_by cut pnt = if leb cut pnt then (1, pnt - cut) else (0, pnt)

pub cursor_moves :
    (b : Buffer) (a cut p : ℕ) (front : Cell) (rest : List Cell)
    → b.currline ≡ some a
    → front.addr ≡ a
    → head_of rest none ≡ some p
    → let b1 = follow_split b (some a) cut p in
      (b1.currline ≡ head_of (drop (moved_by cut b.currpnt).0 (front ∷ rest)) none)
      × (b1.currpnt ≡ (moved_by cut b.currpnt).1)
      × (b1.currln ≡ b.currln + (moved_by cut b.currpnt).0)
unfolding follow_split same_ptr
cursor_moves b a cut p front rest e f h = elim (Bool-cases (leb cut b.currpnt)) [
  | inl m ↦ rw (e, eq_self a, m) (sym h, refl, refl)
  | inr m ↦ rw (e, eq_self a, m) (ap some (sym f), refl, omega arith)
]

-- Typing a character in the line at the cursor, in either mode, when no posted article is edited and
-- all lines from there on fit their arrays: the lines from the cursor on become what `wrapped` says
-- of the line as typed, the lines before stay, and the cursor is behind the new character. As many
-- rounds as there are lines from the cursor on are enough, and no null or freed pointer is followed.
pub insert_char_lem :
    (sign : Sign) (rounds : ℕ) (b : Buffer) (xs ys : List Cell) (c : Cell) (ch : ℕ)
    → sign.editing ≡ false
    → Shows b (xs ++ c ∷ ys)
    → b.currline ≡ some c.addr
    → b.currpnt ≤ length c.bytes
    → short (texts (c ∷ ys)) ≡ true
    → length ys < rounds
    → Typed b xs ys
        (typed_line b.insert_character c.bytes b.currpnt ch)
        (b.currpnt + 1)
        (insert_char sign rounds b ch)
unfolding insert_char insert_at
insert_char_lem sign rounds b xs ys c ch new sh cur inside small fuel =
    let t = typed_line b.insert_character c.bytes b.currpnt ch in
    let here = deref-Shows b xs ys c sh in
    let (b1, e1, sh1, k1) =
      recell-Shows b xs ys c t (put_char b.insert_character b.currpnt ch) sh
        (put_char-line b.insert_character b.currpnt ch c inside) in
    let c' = recell c t in
    let at_c = deref-Shows b1 xs ys c' sh1 in
    let b2 = record b1 { currpnt = b.currpnt + 1 } in
    let sh2 : Shows b2 (xs ++ c' ∷ ys) = record {
      chain = sh1.chain;
      first = sh1.first;
      last = sh1.last;
      apart = sh1.apart;
      older = sh1.older;
    } in
    let before : ltb (length c.bytes) b.currpnt ≡ false = ground arith in
    elim (Bool-cases (ltb (length t) wrap_margin)) [
      | inl fits ↦ record {
        after = b2;
        cells = c' ∷ ys;
        runs = ap (λ q. insert_at sign rounds b q ch) cur ∙ rw (here, before, e1, at_c, fits) refl;
        shows = sh2;
        lines = rw fits refl;
        line = rw fits (k1.line ∙ cur);
        pnt_in = rw fits refl;
        ln = rw fits (omega (arith, k1.ln));
      }
      | inr long ↦
          let full : length t ≡ wrap_margin = omega (
            arith,
            length-typed_line b.insert_character c.bytes b.currpnt ch inside,
            (let l : wrap_margin ≤ length t = ground arith in l),
            (let l : length c.bytes < wrap_margin = ground arith in l),
          ) in
          let (g, w) =
            wrap_line-Wrapped rounds b2 xs ys c' (last_of none xs) (head_of ys none) sh2
              (k1.line ∙ cur) full (ground arith) fuel in
          let b4 = record b2 {
            store = g;
            fresh = b2.fresh + 1;
            lastline = last_after b2.lastline b2.fresh ys;
          } in
          let front = recell c' (take (cut_at t) t) in
          let (l, p, n) =
            cursor_moves b4 c.addr (cut_at t) b2.fresh front w.rest (k1.line ∙ cur) refl w.second in
          record {
            after = w.after;
            cells = front ∷ w.rest;
            runs =
                ap (λ q. insert_at sign rounds b q ch) cur
                ∙ rw (here, before, e1, at_c, long, w.runs)
                    (leave_origin_other sign w.after w.at new);
            shows = w.shows;
            lines = rw long (ap (◌∷◌ (take (cut_at t) t)) w.lines);
            line = rw long (w.cursor.line ∙ l);
            pnt_in = rw long (w.cursor.pnt ∙ p);
            ln =
                rw long
                  (w.cursor.ln ∙ n ∙ ap (λ m. m + (moved_by (cut_at t) (b.currpnt + 1)).0) k1.ln);
          }
    ]
