-- ===== src/Editor/Moving.antt =====
-- The keys of bbssrc/src/edit.c that move the cursor.
use firebird_bbs.Base.{
  ℕ, ◌+◌, ◌-◌, ◌≤◌, ◌≡◌, refl, false, Option, some, leb, ◌==◌, length, arith, Bool-cases, inl, inr,
}
use firebird_bbs.Editor.{Buffer}
use firebird_bbs.Editor.Wrap.{Sign}
use firebird_bbs.Editor.Typing.{origin_other}
use firebird_bbs.Editor.Keys.{place_cursor, min_len, to_prev, to_next, move_left, move_right}
use firebird_bbs.Editor.Spots.{here, deref-Spot, Spot-next, Spot-prev, Editing, Editing-place}

-- The key is done without a wild pointer, and the buffer is in order again.
pub record Kept (r : Option Buffer) : Type 0 where
  pub after : Buffer
  pub runs : r ≡ some after
  pub editing : Editing after

pub min_len_le : (len pnt : ℕ) → min_len len pnt ≤ len
unfolding min_len
min_len_le len pnt = ground arith

pub to_prev-Kept :
    (b : Buffer) (e : Editing b) (pnt : ℕ → ℕ)
    → ((len : ℕ) → pnt len ≤ len)
    → Kept (to_prev b (here e.spot) pnt)
unfolding to_prev place_cursor
to_prev-Kept b e pnt h = elim (Spot-prev e.cells b.currline b.currln e.spot) [
  | inl (f, _) ↦ record { after = b; runs = rw f refl; editing = e }
  | inr (n, f, _, t, _, _) ↦ record {
    after = place_cursor b (some n) (pnt (length t.at.bytes)) (b.currln - 1);
    runs = rw (f, deref-Spot b e.cells (some n) (b.currln - 1) e.shows t) refl;
    editing =
        Editing-place b e (some n) (pnt (length t.at.bytes)) (b.currln - 1) t
          (h (length t.at.bytes));
  }
]

pub to_next-Kept :
    (sign : Sign) (b : Buffer) (e : Editing b) (pnt : ℕ → ℕ)
    → sign.editing ≡ false
    → ((len : ℕ) → pnt len ≤ len)
    → Kept (to_next sign b (here e.spot) pnt)
unfolding to_next place_cursor
to_next-Kept sign b e pnt new h = elim (Spot-next e.cells b.currline b.currln e.spot) [
  | inl (f, _) ↦ record { after = b; runs = rw f refl; editing = e }
  | inr (n, f, t) ↦
      let at_n = deref-Spot b e.cells (some n) (b.currln + 1) e.shows t in
      record {
        after = place_cursor b (some n) (pnt (length t.at.bytes)) (b.currln + 1);
        runs = rw (f, origin_other sign b (some n) new, at_n) refl;
        editing =
            Editing-place b e (some n) (pnt (length t.at.bytes)) (b.currln + 1) t
              (h (length t.at.bytes));
      }
]

pub move_left-Kept : (b : Buffer) (e : Editing b) → Kept (move_left b (here e.spot))
unfolding move_left
move_left-Kept b e = elim (Bool-cases (leb 1 b.currpnt)) [
  | inl f ↦ record {
    after = record b { currpnt = b.currpnt - 1 };
    runs = rw f refl;
    editing =
        Editing-place b e b.currline (b.currpnt - 1) b.currln e.spot (omega (arith, e.pnt_in));
  }
  | inr f ↦ rw f (to_prev-Kept b e (λ len. len) (λ len. omega arith))
]

pub move_right-Kept :
    (sign : Sign) (b : Buffer) (e : Editing b)
    → sign.editing ≡ false
    → Kept (move_right sign b (here e.spot))
unfolding move_right
move_right-Kept sign b e new = elim (Bool-cases (length e.spot.at.bytes == b.currpnt)) [
  | inl f ↦ rw f (to_next-Kept sign b e (λ len. 0) new (λ len. omega arith))
  | inr f ↦ record {
    after = record b { currpnt = b.currpnt + 1 };
    runs = rw f refl;
    editing =
        Editing-place b e b.currline (b.currpnt + 1) b.currln e.spot
          (let h = e.pnt_in in ground arith);
  }
]
