-- ===== src/Editor/Linking.antt =====
-- `append` of bbssrc/src/edit.c on a text in the heap.
use firebird_bbs.Base.Maps.{update}
use firebird_bbs.Base.{
  ℕ, ◌≡◌, refl, ◌∙◌, true, false, Option, none, some, List, [], ◌∷◌, ◌++◌, ◌==◌, ==_iff, arith,
  Bool-cases, inl, inr,
}
use firebird_bbs.Editor.{Ptr, TextLine, Buffer, deref, put_line, modify, append}
use firebird_bbs.Editor.Heap.{
  Cell, has, head_of, last_of, line_of, Seg, distinct, below, frame-update, has-append, Seg-append,
  Seg-left, Seg-right, distinct-append, distinct-cons, relink_first,
}

-- The buffer shows these cells as its text.
pub record Shows (b : Buffer) (cs : List Cell) : Type 0 where
  pub chain : Seg b.store none cs none
  pub first : b.firstline ≡ head_of cs none
  pub last : b.lastline ≡ last_of none cs
  pub apart : distinct cs ≡ true
  pub older : below b.fresh cs ≡ true

-- Both buffers have the cursor at the same place.
pub record SameCursor (b b' : Buffer) : Type 0 where
  pub line : b'.currline ≡ b.currline
  pub pnt : b'.currpnt ≡ b.currpnt
  pub ln : b'.currln ≡ b.currln
  pub mode : b'.insert_character ≡ b.insert_character

pub SameCursor-trans : {a b c : Buffer} → SameCursor a b → SameCursor b c → SameCursor a c
SameCursor-trans p q = record {
  line = q.line ∙ p.line;
  pnt = q.pnt ∙ p.pnt;
  ln = q.ln ∙ p.ln;
  mode = q.mode ∙ p.mode;
}

pub same_cursor : (b : Buffer) → SameCursor b b
same_cursor b = record { line = refl; pnt = refl; ln = refl; mode = refl }

pub modify-some :
    (b : Buffer) (p : ℕ) (l : TextLine) (f : TextLine → TextLine)
    → b.store p ≡ some l
    → modify b (some p) f ≡ some (put_line b p (f l))
unfolding modify
modify-some b p l f e = rw e refl

pub eq_self : (n : ℕ) → (n == n) ≡ true
eq_self n = (==_iff n n).1 refl

append_end :
    (b : Buffer) (n c : ℕ) (nl cl : TextLine)
    → b.store n ≡ some nl
    → b.store c ≡ some cl
    → cl.next ≡ none
    → (c == n) ≡ false
    → (n == c) ≡ false
    → append b (some n) (some c)
      ≡ some (record b {
        store =
            update
              (update
                (update b.store n (some (record nl { next = none })))
                c
                (some (record cl { next = some n })))
              n
              (some (record nl { prev = some c; next = none }));
        lastline = some n;
      })
unfolding append deref modify put_line update
append_end b n c nl cl en ec last cn nc = rw (ec, last, en, cn, ec, nc, eq_self n) refl

append_mid :
    (b : Buffer) (n c d : ℕ) (nl cl dl : TextLine)
    → b.store n ≡ some nl
    → b.store c ≡ some cl
    → b.store d ≡ some dl
    → cl.next ≡ some d
    → (c == n) ≡ false
    → (n == c) ≡ false
    → (d == n) ≡ false
    → (n == d) ≡ false
    → (c == d) ≡ false
    → append b (some n) (some c)
      ≡ some (record b {
        store =
            update
              (update
                (update
                  (update b.store n (some (record nl { next = some d })))
                  d
                  (some (record dl { prev = some n })))
                c
                (some (record cl { next = some n })))
              n
              (some (record nl { prev = some c; next = some d }));
      })
unfolding append deref modify put_line update
append_mid b n c d nl cl dl en ec ed next cn nc dn nd cd =
    rw (ec, next, en, dn, ed, cd, cn, ec, nc, nd, eq_self n) refl

-- The last line after another one has been put behind `c`, where `ys` follow.
abbrev pub last_after : Ptr → ℕ → List Cell → Ptr
last_after old n [] = some n
last_after old n (y ∷ ys) = old

-- What an operation on the list of lines leaves: the same statics but for the heap and the last line.
abbrev pub Relinked : Buffer → Ptr → List Cell → Option Buffer → Type 0
Relinked b last cs r =
    (g : (ℕ → Option TextLine)) × (r ≡ some (record b { store = g; lastline = last }))
    × Seg g none cs none

pub has_here : (c : Cell) (ys : List Cell) → has c.addr (c ∷ ys) ≡ true
has_here c ys = rw (eq_self c.addr) refl

pub not_same : (a b : ℕ) → (a == b) ≡ false → (b == a) ≡ false
not_same a b h = ground arith

pub out_front :
    (xs ys : List Cell) (w : ℕ) → distinct (xs ++ ys) ≡ true → has w ys ≡ true → has w xs ≡ false
out_front xs ys w d i = elim (Bool-cases (has w xs)) [
  | inl j ↦ absurd (let o = (distinct-append xs ys d).2 w j in cc)
  | inr o ↦ o
]

module _ (b : Buffer) (xs ys : List Cell) (c n : Cell) (before after : Ptr)
    (s : Seg b.store none (xs ++ c ∷ ys) none) (d : distinct (xs ++ c ∷ ys) ≡ true)
    (out : has n.addr (xs ++ c ∷ ys) ≡ false)
    (at_n : b.store n.addr ≡ some (line_of before n after)) where
  split_out : (has n.addr xs ≡ false) × ((c.addr == n.addr) ≡ false) × (has n.addr ys ≡ false)
  split_out = let e = has-append n.addr xs (c ∷ ys) in (ground arith, ground arith, ground arith)

  c_out : (has c.addr xs ≡ false) × (has c.addr ys ≡ false)
  c_out =
      let (_, dc, _) = distinct-append xs (c ∷ ys) d in
      (out_front xs (c ∷ ys) c.addr d (has_here c ys), (distinct-cons c ys dc).0)

  at_c : b.store c.addr ≡ some (line_of (last_of none xs) c (head_of ys none))
  at_c = (Seg-right b.store none none xs (c ∷ ys) s).0

pub append-Seg :
    (b : Buffer) (xs ys : List Cell) (c n : Cell) (before after : Ptr)
    → Seg b.store none (xs ++ c ∷ ys) none
    → distinct (xs ++ c ∷ ys) ≡ true
    → has n.addr (xs ++ c ∷ ys) ≡ false
    → b.store n.addr ≡ some (line_of before n after)
    → Relinked b
        (last_after b.lastline n.addr ys)
        (xs ++ c ∷ n ∷ ys)
        (append b (some n.addr) (some c.addr))
append-Seg b xs [] c n before after s d out at_n =
    let (nx, cn, ny) = split_out b xs [] c n before after s d out at_n in
    let (cx, cy) = c_out b xs [] c n before after s d out at_n in
    let nc = not_same c.addr n.addr cn in
    let ec = at_c b xs [] c n before after s d out at_n in
    let front = Seg-left b.store none none xs (c ∷ []) s in
    let g1 = update b.store n.addr (some (line_of before n none)) in
    let g2 = update g1 c.addr (some (line_of (last_of none xs) c (some n.addr))) in
    let g = update g2 n.addr (some (line_of (some c.addr) n none)) in
    (
      g,
      append_end b n.addr c.addr (line_of before n after) (line_of (last_of none xs) c none) at_n ec
          refl cn nc,
      Seg-append g none none xs (c ∷ n ∷ [])
          (frame-update g2 n.addr _ none (some c.addr) xs nx (
            frame-update g1 c.addr _ none (some c.addr) xs cx
              (frame-update b.store n.addr _ none (some c.addr) xs nx front)))
          (unfold update in rw (cn, eq_self c.addr, eq_self n.addr) (refl, (refl, tt))),
    )
append-Seg b xs (y ∷ ys) c n before after s d out at_n =
    let (nx, cn, ny) = split_out b xs (y ∷ ys) c n before after s d out at_n in
    let (cx, cy) = c_out b xs (y ∷ ys) c n before after s d out at_n in
    let nc = not_same c.addr n.addr cn in
    let ec = at_c b xs (y ∷ ys) c n before after s d out at_n in
    let front = Seg-left b.store none none xs (c ∷ y ∷ ys) s in
    let back = (Seg-right b.store none none xs (c ∷ y ∷ ys) s).1 in
    let apart = distinct-append xs (c ∷ y ∷ ys) d in
    let dy = (distinct-cons c (y ∷ ys) apart.1).1 in
    let yn : (y.addr == n.addr) ≡ false = ground arith in
    let yc : (y.addr == c.addr) ≡ false = ground arith in
    let yx : has y.addr xs ≡ false = out_front xs (c ∷ y ∷ ys) y.addr d (ground arith) in
    let g1 = update b.store n.addr (some (line_of before n (some y.addr))) in
    let g2 = update g1 y.addr (some (line_of (some n.addr) y (head_of ys none))) in
    let g3 = update g2 c.addr (some (line_of (last_of none xs) c (some n.addr))) in
    let g = update g3 n.addr (some (line_of (some c.addr) n (some y.addr))) in
    let back1 =
      frame-update b.store n.addr (some (line_of before n (some y.addr))) (some c.addr) none
        (y ∷ ys) ny back in
    let back2 = relink_first g1 (some c.addr) none (some n.addr) y ys dy back1 in
    let back3 = frame-update g2 c.addr _ (some n.addr) none (y ∷ ys) cy back2 in
    (
      g,
      append_mid b n.addr c.addr y.addr (line_of before n after)
          (line_of (last_of none xs) c (some y.addr)) (line_of (some c.addr) y (head_of ys none))
          at_n ec back.0 refl cn nc yn (not_same y.addr n.addr yn) (not_same y.addr c.addr yc),
      Seg-append g none none xs (c ∷ n ∷ y ∷ ys)
          (frame-update g3 n.addr _ none (some c.addr) xs nx (
            frame-update g2 c.addr _ none (some c.addr) xs cx (
              frame-update g1 y.addr _ none (some c.addr) xs yx
                (frame-update b.store n.addr _ none (some c.addr) xs nx front))))
          (
            unfold update in rw (cn, eq_self c.addr) refl,
            (
              unfold update in rw (eq_self n.addr) refl,
              frame-update g3 n.addr _ (some n.addr) none (y ∷ ys) ny back3,
            ),
          ),
    )
