-- ===== src/ReadMark/Order.antt =====
-- The order and the number of the marks that `brc_addlist` of bbssrc/src/boards.c keeps.
use firebird_bbs.Base.Text.{Bytes}
use firebird_bbs.Base.{
  ℕ, suc, ◌+◌, ◌≤◌, ◌<◌, ◌≡◌, refl, ap, ◌∙◌, inl, inr, Bool, true, false, ◌||◌, ◌&&◌, not, some,
  List, [], ◌∷◌, ltb, ◌==◌, if◌then◌else◌, length, arith, Option-cases,
}
use firebird_bbs.ReadMark.{
  brc_maxnum, Brc, post_time, all_but_last, place, mark, brc_addlist, unread_loop, brc_unread,
}
use firebird_bbs.ReadMark.Marks.{room, unread_at, unread_nonempty}

-- The marks stand in strictly descending order.
abbrev below : ℕ → List ℕ → Bool
below x [] = true
below x (y ∷ ys) = ltb y x

abbrev pub descending : List ℕ → Bool
descending [] = true
descending (x ∷ xs) = below x xs && descending xs

below-all_but_last : (x : ℕ) (l : List ℕ) → below x l ≡ true → below x (all_but_last l) ≡ true
unfolding all_but_last
below-all_but_last x [] h = refl
below-all_but_last x (y ∷ []) h = refl
below-all_but_last x (y ∷ z ∷ l) h = h

descending-all_but_last : (l : List ℕ) → descending l ≡ true → descending (all_but_last l) ≡ true
unfolding all_but_last
descending-all_but_last [] h = refl
descending-all_but_last (x ∷ []) h = refl
descending-all_but_last (x ∷ y ∷ l) h =
    ground (arith, descending-all_but_last (y ∷ l), below-all_but_last x (y ∷ l))

below-place :
    (r : Bool) (t x : ℕ) (l : List ℕ) → t < x → below x l ≡ true → below x (place r t l).0 ≡ true
unfolding place
below-place r t x [] o h = ground arith
below-place r t x (y ∷ l) o h = ground arith

below_place_last : (t x : ℕ) (l : List ℕ) → x < t → below t (all_but_last (x ∷ l)) ≡ true
unfolding all_but_last
below_place_last t x [] o = refl
below_place_last t x (y ∷ l) o = ground arith

descending-place :
    (r : Bool) (t : ℕ) (l : List ℕ) → descending l ≡ true → descending (place r t l).0 ≡ true
unfolding place
descending-place r t [] h = ground arith
descending-place r t (x ∷ l) h = ground (
  arith,
  descending-place r t l,
  below-place r t x l,
  below_place_last t x l,
  descending-all_but_last (x ∷ l),
)

length-all_but_last : (x : ℕ) (l : List ℕ) → length (all_but_last (x ∷ l)) ≡ length l
unfolding all_but_last
length-all_but_last x [] = refl
length-all_but_last x (y ∷ l) = ap suc (length-all_but_last y l)

length-place :
    (r : Bool) (t : ℕ) (l : List ℕ)
    → length (place r t l).0 ≤ (if r then length l + 1 else length l)
unfolding place
length-place true t [] = omega arith
length-place false t [] = omega arith
length-place true t (x ∷ l) = ground (arith, length-place true t l)
length-place false t (x ∷ l) = ground (arith, length-place false t l, length-all_but_last x l)

-- The marks stay in strictly descending order and never become more than the array holds, whatever
-- file name is marked and whoever the user is.
pub brc_addlist-descending :
    (guest : Bool) (b : Brc) (f : Bytes)
    → descending b.brc_list ≡ true
    → length b.brc_list ≤ brc_maxnum
    → (descending (brc_addlist guest b f).brc_list ≡ true)
      × (length (brc_addlist guest b f).brc_list ≤ brc_maxnum)
unfolding brc_addlist mark
brc_addlist-descending true b f d l = (d, l)
brc_addlist-descending false b f d l = elim (Option-cases (post_time f)) [
  | inl e ↦ rw e (d, l)
  | inr (t, e) ↦ rw e (
    descending-place (room b.brc_list) t b.brc_list d,
    ground (arith, length-place (room b.brc_list) t b.brc_list),
  )
]

abbrev pub has : List ℕ → ℕ → Bool
has [] u = false
has (x ∷ l) u = u == x || has l u

-- Some mark is older than `u`.
abbrev pub passes : List ℕ → ℕ → Bool
passes [] u = false
passes (x ∷ l) u = ltb x u || passes l u

none_above : (u x : ℕ) (l : List ℕ) → descending (x ∷ l) ≡ true → x < u → has (x ∷ l) u ≡ false
none_above u x [] d o = ground arith
none_above u x (y ∷ l) d o = ground (arith, none_above u y l)

loop_characterised :
    (u : ℕ) (l : List ℕ) → descending l ≡ true → unread_loop u l ≡ (not (has l u) && passes l u)
unfolding unread_loop
loop_characterised u [] d = refl
loop_characterised u (x ∷ l) d = ground (arith, loop_characterised u l, none_above u x l)

-- With descending marks, and at least one, a post is unread exactly when its time is not among the
-- marks and some mark is older than it.
pub brc_unread_iff :
    (b : Brc) (g : Bytes) (u : ℕ)
    → post_time g ≡ some u
    → descending b.brc_list ≡ true
    → 0 < length b.brc_list
    → brc_unread b g ≡ (not (has b.brc_list u) && passes b.brc_list u)
brc_unread_iff b g u e d l =
    unread_at b g u e ∙ unread_nonempty u b.brc_list l ∙ loop_characterised u b.brc_list d
