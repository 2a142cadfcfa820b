-- ===== src/ReadMark/Marks.antt =====
-- `brc_unread` after `brc_addlist`, of bbssrc/src/boards.c.
use firebird_bbs.Base.Text.{Bytes}
use firebird_bbs.Base.{
  ℕ, ◌≤◌, ◌<◌, ◌≡◌, refl, ap, sym, ◌∙◌, inl, inr, Bool, true, false, ◌||◌, ◌&&◌, not, some, List,
  [], ◌∷◌, ltb, leb, ◌==◌, length, arith, Bool-cases,
}
use firebird_bbs.ReadMark.{
  brc_maxnum, Brc, post_time, all_but_last, place, mark, brc_addlist, unread_loop, unread_time,
  brc_unread,
}

place_read : (room : Bool) (t : ℕ) (l : List ℕ) → unread_loop t (place room t l).0 ≡ false
unfolding place unread_loop
place_read room t [] = ground arith
place_read room t (x ∷ xs) = ground (arith, place_read room t xs)

-- Some mark is not newer than `t`.
abbrev pub covers : List ℕ → ℕ → Bool
covers [] t = false
covers (x ∷ xs) t = leb x t || covers xs t

place_exact :
    (t u : ℕ) (l : List ℕ)
    → covers l t ≡ true
    → unread_loop u (place true t l).0 ≡ (unread_loop u l && not (u == t))
unfolding place unread_loop
place_exact t u [] c = absurd (cc)
place_exact t u (x ∷ xs) c = ground (arith, place_exact t u xs)

all_but_last_unread :
    (u : ℕ) (l : List ℕ) → unread_loop u (all_but_last l) ≡ true → unread_loop u l ≡ true
unfolding all_but_last unread_loop
all_but_last_unread u [] h = h
all_but_last_unread u (x ∷ []) h = absurd (cc)
all_but_last_unread u (x ∷ y ∷ xs) h = ground (arith, all_but_last_unread u (y ∷ xs))

place_full :
    (t u : ℕ) (l : List ℕ) → unread_loop u (place false t l).0 ≡ true → unread_loop u l ≡ true
unfolding place unread_loop
place_full t u [] h = h
place_full t u (x ∷ xs) h = ground (arith, place_full t u xs, all_but_last_unread u (x ∷ xs))

place_nonempty :
    (room : Bool) (t u x : ℕ) (l : List ℕ)
    → unread_time (place room t (x ∷ l)).0 u ≡ unread_loop u (place room t (x ∷ l)).0
unfolding place unread_time
place_nonempty room t u x l = elim (Bool-cases (t == x)) [
  | inl e ↦ rw e refl
  | inr e ↦ elim (Bool-cases (ltb x t)) [ inl o ↦ rw (e, o) refl | inr o ↦ rw (e, o) refl ]
]

-- The room that the list has.
abbrev pub room : List ℕ → Bool
room l = ltb (length l) brc_maxnum

placed :
    (t u : ℕ) (l : List ℕ)
    → unread_time (place (room l) t l).0 u ≡ unread_loop u (place (room l) t l).0
unfolding place unread_time
placed t u [] = refl
placed t u (x ∷ l) = place_nonempty (room (x ∷ l)) t u x l

addlist_mark :
    (b : Brc) (f : Bytes) (t : ℕ) → post_time f ≡ some t → brc_addlist false b f ≡ mark b t
unfolding brc_addlist
addlist_mark b f t e = ground arith

pub unread_at :
    (b : Brc) (g : Bytes) (u : ℕ) → post_time g ≡ some u → brc_unread b g ≡ unread_time b.brc_list u
unfolding brc_unread
unread_at b g u e = ground arith

marked :
    (b : Brc) (f g : Bytes) (t u : ℕ)
    → post_time f ≡ some t
    → post_time g ≡ some u
    → brc_unread (brc_addlist false b f) g ≡ unread_loop u (place (room b.brc_list) t b.brc_list).0
marked b f g t u at_f at_g =
    unread_at (brc_addlist false b f) g u at_g
    ∙ ap (λ (m : Brc). unread_time m.brc_list u) (addlist_mark b f t at_f)
    ∙ unfold mark in placed t u b.brc_list

-- Once a user that is not the guest has read a post, the post is not unread.
pub brc_unread-brc_addlist :
    (b : Brc) (f : Bytes) (t : ℕ)
    → post_time f ≡ some t
    → brc_unread (brc_addlist false b f) f ≡ false
brc_unread-brc_addlist b f t e = marked b f f t t e e ∙ place_read (room b.brc_list) t b.brc_list

unread_covered : (t u : ℕ) (l : List ℕ) → covers l t ≡ true → unread_time l u ≡ unread_loop u l
unfolding unread_time
unread_covered t u [] c = absurd (cc)
unread_covered t u (x ∷ l) c = refl

exact_member :
    (b : Brc) (f g : Bytes) (t u : ℕ)
    → post_time f ≡ some t
    → post_time g ≡ some u
    → length b.brc_list < brc_maxnum
    → covers b.brc_list t ≡ true
    → brc_unread (brc_addlist false b f) g ≡ (brc_unread b g && not (u == t))
unfolding brc_unread
exact_member b f g t u at_f at_g l c =
    let free : room b.brc_list ≡ true = ground arith in
    let before = unread_at b g u at_g ∙ unread_covered t u b.brc_list c in
    rw (before, marked b f g t u at_f at_g, free) (place_exact t u b.brc_list c)

-- As long as the list is not full and one of its marks is not newer than the post `f`, reading `f`
-- changes exactly that post's state: every other post is unread afterwards if and only if it was. For
-- the guest nothing changes at all.
pub brc_addlist_exact :
    (guest : Bool) (b : Brc) (f g : Bytes) (t u : ℕ)
    → post_time f ≡ some t
    → post_time g ≡ some u
    → length b.brc_list < brc_maxnum
    → covers b.brc_list t ≡ true
    → brc_unread (brc_addlist guest b f) g ≡ (brc_unread b g && not (not guest && u == t))
brc_addlist_exact false b f g t u at_f at_g l c = exact_member b f g t u at_f at_g l c
brc_addlist_exact true b f g t u at_f at_g l c = unfold brc_addlist in ground arith

unread_of_loop : (u : ℕ) (l : List ℕ) → unread_loop u l ≡ true → unread_time l u ≡ true
unfolding unread_time unread_loop
unread_of_loop u [] h = refl
unread_of_loop u (x ∷ l) h = h

-- When the list is full, its oldest mark may be dropped for a new one. Still, reading a post makes
-- no post unread that was read before.
pub brc_addlist_full :
    (b : Brc) (f g : Bytes) (t u : ℕ)
    → post_time f ≡ some t
    → post_time g ≡ some u
    → brc_maxnum ≤ length b.brc_list
    → brc_unread (brc_addlist false b f) g ≡ true
    → brc_unread b g ≡ true
unfolding brc_unread
brc_addlist_full b f g t u at_f at_g l h =
    let full : room b.brc_list ≡ false = ground arith in
    let after : unread_loop u (place false t b.brc_list).0 ≡ true =
      rw full at (sym (marked b f g t u at_f at_g) ∙ h) in
    rw (unread_at b g u at_g) (unread_of_loop u b.brc_list (place_full t u b.brc_list after))

place_older :
    (t u : ℕ) (l : List ℕ) → covers l u ≡ false → t < u → unread_loop u (place true t l).0 ≡ true
unfolding place unread_loop
place_older t u [] c h = ground arith
place_older t u (x ∷ xs) c h = ground (arith, place_older t u xs)

none_covers : (u : ℕ) (l : List ℕ) → covers l u ≡ false → unread_loop u l ≡ false
unfolding unread_loop
none_covers u [] c = refl
none_covers u (x ∷ xs) c = ground (arith, none_covers u xs)

pub unread_nonempty : (u : ℕ) (l : List ℕ) → 0 < length l → unread_time l u ≡ unread_loop u l
unfolding unread_time
unread_nonempty u [] h = absurd (omega arith)
unread_nonempty u (x ∷ l) h = refl

-- Where the list has room, has a mark, and has none as old as the post `g`: that post is not unread,
-- but it becomes unread when a post older than it is read, unless the user is the guest.
pub brc_addlist_older :
    (guest : Bool) (b : Brc) (f g : Bytes) (t u : ℕ)
    → post_time f ≡ some t
    → post_time g ≡ some u
    → 0 < length b.brc_list
    → length b.brc_list < brc_maxnum
    → covers b.brc_list u ≡ false
    → t < u
    → (brc_unread b g ≡ false) × (brc_unread (brc_addlist guest b f) g ≡ not guest)
brc_addlist_older guest b f g t u at_f at_g some_mark l c h = (before, after guest)
  where
    before : brc_unread b g ≡ false
    before =
        unread_at b g u at_g ∙ unread_nonempty u b.brc_list some_mark ∙ none_covers u b.brc_list c

    after : (guest : Bool) → brc_unread (brc_addlist guest b f) g ≡ not guest
    after true = unfold brc_addlist in before
    after false =
        let free : room b.brc_list ≡ true = ground arith in
        rw (marked b f g t u at_f at_g, free) (place_older t u b.brc_list c h)
