-- ===== src/Editor/Jump.antt =====
-- `goline` of bbssrc/src/edit.c, the jump to a line by its number.
use firebird_bbs.Base.{
  ℕ, zero, suc, ◌+◌, ◌-◌, ◌≡◌, refl, ap, ◌∙◌, append_assoc, Bool, false, ◌&&◌, Option, none, some,
  List, [], ◌∷◌, ◌++◌, length, leb, ◌==◌, if◌then◌else◌, arith, ◌>>=◌,
}
use firebird_bbs.Editor.{Ptr, Buffer, same_ptr, deref}
use firebird_bbs.Editor.Wrap.{Sign, origin}
use firebird_bbs.Editor.Heap.{Cell, head_of, last_of}
use firebird_bbs.Editor.Linking.{Shows}
use firebird_bbs.Editor.Lines.{deref-Shows}
use firebird_bbs.Editor.Typing.{origin_other}
use firebird_bbs.Editor.Spots.{Shows-place}

-- A negative number counts as 1.
unfoldable pub line_number : Bool → ℕ → ℕ
line_number negative m = if negative && leb 1 m then 1 else m

-- The loop of `goline`, in as many turns as there are lines to pass: where it stops, and `count`.
unfoldable pub pass_lines : ℕ → Buffer → Ptr → ℕ → Option (Ptr × ℕ)
pass_lines zero b p count = some (p, count)
pass_lines (suc k) b none count = some (none, count)
pass_lines (suc k) b (some p) count = do l ← deref b (some p); pass_lines k b l.next (count + 1)

-- The end of `goline`: the cursor does not stay on the signature, nor behind it.
unfoldable pub before_origin : Sign → Buffer → Option Buffer
before_origin sign b = do
  on_it ← origin sign b b.currline
  b1 ←
      (if on_it
        then (do
          m ← deref b b.currline
          some (record b { currline = m.prev; currln = b.currln - 1 }))
        else some b)
  l ← deref b1 b1.currline
  behind ← origin sign b1 l.prev
  if behind
      then (do m ← deref b1 l.prev; some (record b1 { currline = m.prev; currln = b1.currln - 2 }))
      else some b1

unfoldable pub goline : Sign → Buffer → Bool → ℕ → Option Buffer
goline sign b negative m = do
  let n = line_number negative m
  (p, count) ← pass_lines (n - 1) b b.firstline 1
  if n == 0
      then some b
      else before_origin sign (
          if same_ptr p none
          then record b { currline = b.lastline; currln = count - 2 }
          else record b { currline = p; currln = n - 1 })

pass_lines_lem :
    (b : Buffer) (done xs ys : List Cell) (c : Cell) (count : ℕ)
    → Shows b (done ++ (xs ++ c ∷ ys))
    → pass_lines (length xs) b (head_of (xs ++ c ∷ ys) none) count
      ≡ some (some c.addr, count + length xs)
unfolding pass_lines
pass_lines_lem b done [] ys c count sh = ap (λ k. some (some c.addr, k)) (omega arith)
pass_lines_lem b done (x ∷ xs) ys c count sh =
    let at_x = deref-Shows b done (xs ++ c ∷ ys) x sh in
    let rest =
      pass_lines_lem b (done ++ x ∷ []) xs ys c (count + 1)
        (rw (append_assoc done (x ∷ []) (xs ++ c ∷ ys)) sh) in
    rw at_x (rest ∙ ap (λ k. some (some c.addr, k)) (omega arith))

-- Where no posted article is edited, a jump to the number of a line, counted from 1, puts the cursor
-- in that line, whatever line it was in, and changes nothing else: its place in the line stays as it
-- was, even behind the end of the line.
pub goline_lands :
    (sign : Sign) (b : Buffer) (xs ys : List Cell) (c : Cell)
    → sign.editing ≡ false
    → Shows b (xs ++ c ∷ ys)
    → goline sign b false (length xs + 1)
      ≡ some (record b { currline = some c.addr; currln = length xs })
unfolding goline line_number before_origin same_ptr
goline_lands sign b xs ys c new sh =
    let b' = record b { currline = some c.addr; currln = length xs } in
    let sh' = Shows-place b (xs ++ c ∷ ys) (some c.addr) b.currpnt (length xs) sh in
    let at_c = deref-Shows b' xs ys c sh' in
    let turns : length xs + 1 - 1 ≡ length xs = omega arith in
    let some_line : (length xs + 1 == 0) ≡ false = ground arith in
    let passed : pass_lines (length xs) b b.firstline 1 ≡ some (some c.addr, 1 + length xs) =
      ap (λ p. pass_lines (length xs) b p 1) sh.first ∙ pass_lines_lem b [] xs ys c 1 sh in
    rw
      (
        turns,
        passed,
        some_line,
        origin_other sign b' (some c.addr) new,
        at_c,
        origin_other sign b' (last_of none xs) new,
      )
      refl
