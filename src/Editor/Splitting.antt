-- ===== src/Editor/Splitting.antt =====
-- The text that the buffer shows after `split` of bbssrc/src/edit.c.
use firebird_bbs.Base.Maps.{update}
use firebird_bbs.Base.{
  ℕ, ◌+◌, ◌≤◌, ◌≡◌, refl, sym, ◌∙◌, true, false, ◌||◌, ◌&&◌, Option, none, some, List, [], ◌∷◌,
  ◌++◌, ltb, ◌==◌, length, arith, take, drop, length-take, length-drop, ◌>>=◌, ap, Bool-cases, inl,
  inr, leb, ◌-◌, if◌then◌else◌,
}
use firebird_bbs.Editor.{
  TextLine, Buffer, deref, put_line, modify, append, split, follow_split, alloc_line, same_ptr,
}
use firebird_bbs.Editor.Heap.{
  Cell, has, head_of, last_of, line_of, Seg, distinct, below, fresh_out, below-suc, frame-update,
  has-append, Seg-right,
}
use firebird_bbs.Editor.Linking.{Shows, eq_self, not_same, append-Seg, last_after}
use firebird_bbs.Editor.Deleting.{last_of-append, recell, distinct-recell, below-recell, recell-Seg}

-- The line behind the cut, at address `p`.
abbrev pub tail_cell : Cell → ℕ → ℕ → Cell
tail_cell c pos p = record { addr = p; bytes = drop pos c.bytes; marked = c.marked }

-- The text in which the line `c` has been cut at `pos`.
abbrev pub cut_lines : List Cell → Cell → List Cell → ℕ → ℕ → List Cell
cut_lines xs c ys pos p = xs ++ recell c (take pos c.bytes) ∷ tail_cell c pos p ∷ ys

-- The buffer before `split` calls `append`.
abbrev cut_buffer : Buffer → List Cell → Cell → List Cell → ℕ → Buffer
cut_buffer b xs c ys pos = record b {
  store =
      update
        (update
          (update b.store b.fresh
            (some (record { prev = none; next = none; len = 0; attr = 0; text = [] })))
          b.fresh (some (line_of none (tail_cell c pos b.fresh) none)))
        c.addr (some (line_of (last_of none xs) (recell c (take pos c.bytes)) (head_of ys none)));
  fresh = b.fresh + 1;
}

split-append :
    (b : Buffer) (xs ys : List Cell) (c : Cell) (pos : ℕ)
    → b.store c.addr ≡ some (line_of (last_of none xs) c (head_of ys none))
    → (c.addr == b.fresh) ≡ false
    → pos ≤ length c.bytes
    → split b (some c.addr) pos ≡ (
        append (cut_buffer b xs c ys pos) (some b.fresh) (some c.addr) >>= λ b4.
        some (follow_split b4 (some c.addr) pos b.fresh))
unfolding split deref alloc_line modify put_line update
split-append b xs ys c pos here cf fits =
    let long : ltb (length c.bytes) pos ≡ false = ground arith in
    let front : length (take pos c.bytes) ≡ pos = omega (arith, length-take pos c.bytes) in
    rw (here, long, eq_self b.fresh, cf, here, front, length-drop pos c.bytes) refl

has_insert :
    (a : ℕ) (xs ys : List Cell) (c n : Cell)
    → has a (xs ++ c ∷ n ∷ ys) ≡ (n.addr == a || has a (xs ++ c ∷ ys))
has_insert a [] ys c n = ground arith
has_insert a (x ∷ xs) ys c n = ground (arith, has_insert a xs ys c n)

below_insert :
    (m : ℕ) (xs ys : List Cell) (c n : Cell)
    → below m (xs ++ c ∷ n ∷ ys) ≡ (ltb n.addr m && below m (xs ++ c ∷ ys))
below_insert m [] ys c n = ground arith
below_insert m (x ∷ xs) ys c n = ground (arith, below_insert m xs ys c n)

distinct_insert :
    (xs ys : List Cell) (c n : Cell)
    → distinct (xs ++ c ∷ ys) ≡ true
    → has n.addr (xs ++ c ∷ ys) ≡ false
    → distinct (xs ++ c ∷ n ∷ ys) ≡ true
distinct_insert [] ys c n d o = ground arith
distinct_insert (x ∷ xs) ys c n d o =
    ground (arith, has_insert x.addr xs ys c n, distinct_insert xs ys c n)

module _ (b : Buffer) (xs ys : List Cell) (c : Cell) (pos : ℕ) (sh : Shows b (xs ++ c ∷ ys)) where
  fresh_lem : has b.fresh (xs ++ c ∷ ys) ≡ false
  fresh_lem = fresh_out b.fresh (xs ++ c ∷ ys) sh.older

  c_not_fresh : (c.addr == b.fresh) ≡ false
  c_not_fresh = let e = has-append b.fresh xs (c ∷ ys) in let o = fresh_lem in ground arith

  cut_buffer-Seg :
      Seg (cut_buffer b xs c ys pos).store none (xs ++ recell c (take pos c.bytes) ∷ ys) none
  cut_buffer-Seg = recell-Seg _ xs ys c (take pos c.bytes) sh.apart (
      frame-update _ b.fresh _ none none (xs ++ c ∷ ys) fresh_lem
        (frame-update b.store b.fresh _ none none (xs ++ c ∷ ys) fresh_lem sh.chain))

  cut_buffer_tail :
      (cut_buffer b xs c ys pos).store b.fresh ≡ some (line_of none (tail_cell c pos b.fresh) none)
  unfolding update
  cut_buffer_tail = rw (not_same c.addr b.fresh c_not_fresh, eq_self b.fresh) refl

  -- `split` as one step of the heap, with the cursor as `follow_split` leaves it.
  pub split_followed :
      pos ≤ length c.bytes
      → (g : (ℕ → Option TextLine)) × (let b4 = record b {
        store = g;
        fresh = b.fresh + 1;
        lastline = last_after b.lastline b.fresh ys;
      } in
          (split b (some c.addr) pos ≡ some (follow_split b4 (some c.addr) pos b.fresh))
          × Shows b4 (cut_lines xs c ys pos b.fresh))
  split_followed fits =
      let here = (Seg-right b.store none none xs (c ∷ ys) sh.chain).0 in
      let t = take pos c.bytes in
      let (d, h) = distinct-recell xs ys c t in
      let n = tail_cell c pos b.fresh in
      let (g, e, s) =
        append-Seg (cut_buffer b xs c ys pos) xs ys (recell c t) n none none cut_buffer-Seg
          (d ∙ sh.apart) (h b.fresh ∙ fresh_lem) cut_buffer_tail in
      (
        g,
        (
          split-append b xs ys c pos here c_not_fresh fits ∙ rw e refl,
          record {
            chain = s;
            first = first xs sh.first;
            last = last ys sh.last;
            apart = distinct_insert xs ys (recell c t) n (d ∙ sh.apart) (h b.fresh ∙ fresh_lem);
            older =
                below_insert (b.fresh + 1) xs ys (recell c t) n
                ∙ (let k =
                      below-recell (b.fresh + 1) xs ys c t
                      ∙ below-suc b.fresh (xs ++ c ∷ ys) sh.older in
                    ground arith);
          },
        ),
      )
    where
      first :
          (zs : List Cell)
          → b.firstline ≡ head_of (zs ++ c ∷ ys) none
          → b.firstline ≡ head_of (cut_lines zs c ys pos b.fresh) none
      first [] e = e
      first (z ∷ zs) e = e

      last :
          (zs : List Cell)
          → b.lastline ≡ last_of none (xs ++ c ∷ zs)
          → last_after b.lastline b.fresh zs ≡ last_of none (cut_lines xs c zs pos b.fresh)
      last [] e =
          sym (last_of-append none xs (recell c (take pos c.bytes) ∷ tail_cell c pos b.fresh ∷ []))
      last (z ∷ zs) e =
          e
          ∙ last_of-append none xs (c ∷ z ∷ zs)
          ∙ sym (
              last_of-append none xs
                (recell c (take pos c.bytes) ∷ tail_cell c pos b.fresh ∷ z ∷ zs))

  follow_split_lem :
      (b4 : Buffer)
      → follow_split b4 (some c.addr) pos b.fresh ≡ (
          let t = same_ptr (some c.addr) b4.currline && leb pos b4.currpnt in
          record b4 {
            currline = if t then some b.fresh else b4.currline;
            currpnt = if t then b4.currpnt - pos else b4.currpnt;
            currln = if t then b4.currln + 1 else b4.currln;
          })
  unfolding follow_split
  follow_split_lem b4 =
      elim (Bool-cases (same_ptr (some c.addr) b4.currline && leb pos b4.currpnt)) [
        | inl e ↦ rw e refl
        | inr e ↦ rw e refl
      ]

  -- With `pos` within the line, `split` cuts the line there, and what is behind is a new line with
  -- the same mark. A cursor in the line at `pos` or behind it is then in the new line, whose number is
  -- one higher, `pos` columns further left; any other cursor stays where it was. Nothing else of the
  -- buffer changes, and no null or freed pointer is followed.
  pub split-Shows :
      pos ≤ length c.bytes
      → (g : (ℕ → Option TextLine)) × (let t =
            same_ptr (some c.addr) b.currline && leb pos b.currpnt in
          let b' = record b {
            store = g;
            fresh = b.fresh + 1;
            lastline = last_after b.lastline b.fresh ys;
            currline = if t then some b.fresh else b.currline;
            currpnt = if t then b.currpnt - pos else b.currpnt;
            currln = if t then b.currln + 1 else b.currln;
          } in
          (split b (some c.addr) pos ≡ some b') × Shows b' (cut_lines xs c ys pos b.fresh))
  split-Shows fits =
      let (g, (r, s)) = split_followed fits in
      (
        g,
        (
          r ∙ ap some (follow_split_lem _),
          record {
            chain = s.chain;
            first = s.first;
            last = s.last;
            apart = s.apart;
            older = s.older;
          },
        ),
      )
