-- ===== src/Station/Occupancy.antt =====
-- The occupancy of rooms of bbssrc/src/station.c: what `exit_room`, `enter_room` and `logout_user` do to the counts.
use firebird_bbs.Base.Maps.{update, count_below, count_below_same, count_below_change}
use firebird_bbs.Base.{
  ℕ, ◌+◌, ◌<◌, ◌≡◌, ◌≢◌, refl, sym, ◌∙◌, inl, inr, Bool, true, ◌&&◌, Option, ◌==◌, ==_iff,
  if◌then◌else◌, arith, Bool-cases,
}
use firebird_bbs.Station.{
  Station, ChatUser, ChatRoom, Message, max_active, max_room, connected, in_room, set_user,
  set_room, send_to_room, send_to_unum,
}

-- A connected user that is in room `r`.
abbrev pub inside : ℕ → ChatUser → Bool
inside r u = connected u && in_room r u

abbrev pub count : Station → ℕ → ℕ
count s r = count_below max_active (λ i. inside r (s.users i))

-- Every room's `occupants` is the number of connected users that are in it, and every connected
-- user's room, if it has one, is an index of `rooms`.
pub record WellFormed (s : Station) : Type 0 where
  pub counted : (r : ℕ) → r < max_room → (s.rooms r).occupants ≡ count s r
  pub placed : (i r : ℕ) → i < max_active → inside r (s.users i) ≡ true → r < max_room

-- What most commands leave alone: who is connected, who is where, and the counts.
pub record Keeps (s s' : Station) : Type 0 where
  pub who : (i r : ℕ) → inside r (s'.users i) ≡ inside r (s.users i)
  pub counts : (r : ℕ) → (s'.rooms r).occupants ≡ (s.rooms r).occupants

pub Keeps-WellFormed : {s s' : Station} → Keeps s s' → WellFormed s → WellFormed s'
Keeps-WellFormed {s} {s'} k w = record {
  counted =
      λ r l. k.counts r ∙ w.counted r l ∙ count_below_same max_active _ _ (λ i b. sym (k.who i r));
  placed = λ i r b h. w.placed i r b (sym (k.who i r) ∙ h);
}

pub Keeps-refl : (s : Station) → Keeps s s
Keeps-refl s = record { who = λ i r. refl; counts = λ r. refl }

pub Keeps-trans : {s t u : Station} → Keeps s t → Keeps t u → Keeps s u
Keeps-trans k l = record {
  who = λ i r. l.who i r ∙ k.who i r;
  counts = λ r. l.counts r ∙ k.counts r;
}

pub set_user-Keeps :
    (s : Station) (i : ℕ) (u : ChatUser)
    → ((r : ℕ) → inside r u ≡ inside r (s.users i))
    → Keeps s (set_user s i u)
unfolding set_user update
set_user-Keeps s i u h = record {
  who = λ j r. elim (Bool-cases (j == i)) [
    | inl e ↦ let p : j ≡ i = (==_iff j i).0 e in rw (e, p) (h r)
    | inr e ↦ rw e
  ];
  counts = λ r. refl;
}

pub set_room-Keeps :
    (s : Station) (k : ℕ) (v : ChatRoom)
    → v.occupants ≡ (s.rooms k).occupants
    → Keeps s (set_room s k v)
unfolding set_room update
set_room-Keeps s k v h = record {
  who = λ j r. refl;
  counts = λ j. elim (Bool-cases (j == k)) [
    | inl e ↦ let p : j ≡ k = (==_iff j k).0 e in rw (e, p) h
    | inr e ↦ rw e
  ];
}

pub send_to_room-Keeps : (s : Station) (r : Option ℕ) (m : Message) → Keeps s (send_to_room s r m)
unfolding send_to_room
send_to_room-Keeps s r m = record { who = λ i r. refl; counts = λ r. refl }

pub send_to_unum-Keeps : (s : Station) (i : ℕ) (m : Message) → Keeps s (send_to_unum s i m)
unfolding send_to_unum
send_to_unum-Keeps s i m = record { who = λ i r. refl; counts = λ r. refl }

-- One user and one count have changed together.
pub record Moved (s s' : Station) (unum k : ℕ) : Type 0 where
  pub others : (i r : ℕ) → i ≢ unum → inside r (s'.users i) ≡ inside r (s.users i)
  pub elsewhere : (r : ℕ) → r ≢ k → inside r (s'.users unum) ≡ inside r (s.users unum)
  pub other_counts : (r : ℕ) → r ≢ k → (s'.rooms r).occupants ≡ (s.rooms r).occupants
  pub count_in :
      (s'.rooms k).occupants + (if inside k (s.users unum) then 1 else 0)
      ≡ (s.rooms k).occupants + (if inside k (s'.users unum) then 1 else 0)

pub Moved-WellFormed :
    {s s' : Station} (unum k : ℕ)
    → unum < max_active
    → k < max_room
    → Moved s s' unum k
    → WellFormed s
    → WellFormed s'
Moved-WellFormed {s} {s'} unum k l lk m w = record {
  counted = λ r lr. elim (Bool-cases (r == k)) [
    | inl e ↦
        let p : r ≡ k = (==_iff r k).0 e in
        let c =
          count_below_change max_active unum (λ i. inside k (s.users i))
            (λ i. inside k (s'.users i)) l (λ i ne. sym (m.others i k ne)) in
        rw p (omega (arith, c, w.counted k lk, m.count_in))
    | inr e ↦
        let ne : r ≢ k = ground arith in
        m.other_counts r ne
        ∙ w.counted r lr
        ∙ count_below_same max_active _ _ (λ i b. elim (Bool-cases (i == unum)) [
          | inl f ↦ let q : i ≡ unum = (==_iff i unum).0 f in rw q (sym (m.elsewhere r ne))
          | inr f ↦ let q : i ≢ unum = ground arith in sym (m.others i r q)
        ])
  ];
  placed = λ i r b h. elim (Bool-cases (r == k)) [
    | inl e ↦ let p : r ≡ k = (==_iff r k).0 e in rw p lk
    | inr e ↦
        let ne : r ≢ k = ground arith in
        elim (Bool-cases (i == unum)) [
          | inl f ↦
              let q : i ≡ unum = (==_iff i unum).0 f in
              w.placed unum r l (sym (m.elsewhere r ne) ∙ (rw q at h))
          | inr f ↦ let q : i ≢ unum = ground arith in w.placed i r b (sym (m.others i r q) ∙ h)
        ]
  ];
}
