-- ===== src/Station/Invariant/Steps.antt =====
-- The commands of bbssrc/src/station.c that move users.
use firebird_bbs.Base.Text.{Bytes}
use firebird_bbs.Base.Maps.{first_from_sound}
use firebird_bbs.Base.{
  ℕ, ◌<◌, ◌≡◌, ◌∙◌, ap, true, Option, none, some, [], ◌∷◌, ◌==◌, arith, Bool-cases, Option-cases,
  inl, inr,
}
use firebird_bbs.Station.{
  Station, ChatUser, exit_kick, Message, max_active, connected, send_to_unum, chatid_to_indx,
  restricted,
}
use firebird_bbs.Station.Occupancy.{WellFormed, Keeps-WellFormed, send_to_unum-Keeps}
use firebird_bbs.Station.Moves.{
  exit_room-WellFormed, enter_room-WellFormed, exit_room_self, logout_user-Keeps, leave_connected,
  leave_room,
}
use firebird_bbs.Station.Rooms.{mainroom, exit_room}
use firebird_bbs.Station.Commands.{
  nextword, may_rule, same_room, banish, chat_kick, join_named, chat_join,
}

-- The index found is a connected user's.
pub chatid_to_indx_lem :
    (s : Station) (unum : ℕ) (id : Bytes) (k : ℕ)
    → chatid_to_indx s unum id ≡ some k
    → (k < max_active) × (connected (s.users k) ≡ true)
unfolding chatid_to_indx
chatid_to_indx_lem s unum id k e =
    let f = first_from_sound max_active 0 _ k e in (omega arith, ground arith)

pub told : (s : Station) (i : ℕ) (m : Message) → WellFormed s → WellFormed (send_to_unum s i m)
told s i m w = Keeps-WellFormed (send_to_unum-Keeps s i m) w

module _ (s : Station) (unum : ℕ) (l : unum < max_active) (c : connected (s.users unum) ≡ true)
    (w : WellFormed s) where
  join-WellFormed : (name rest : Bytes) → WellFormed (join_named s unum name rest)
  unfolding join_named
  join-WellFormed [] rest = told s unum _ w
  join-WellFormed (x ∷ name) rest = enter_room-WellFormed s unum (x ∷ name) rest l c w

  pub chat_join-WellFormed : (m : Bytes) → WellFormed (chat_join s unum m)
  unfolding chat_join
  chat_join-WellFormed m = elim (Bool-cases (restricted (s.users unum))) [
    | inl p ↦ rw p (told s unum _ w)
    | inr p ↦ rw p (join-WellFormed (nextword m).0 (nextword m).1)
  ]

banish-WellFormed :
    (s : Station) (k : ℕ) (rnum : Option ℕ)
    → k < max_active
    → connected (s.users k) ≡ true
    → (s.users k).room ≡ none
    → WellFormed s
    → WellFormed (banish s k rnum)
unfolding banish
banish-WellFormed s k none l c e w = enter_room-WellFormed s k mainroom [] l c w
banish-WellFormed s k (some r) l c e w = elim (Bool-cases (r == 0)) [
  | inl z ↦ rw z (Keeps-WellFormed (logout_user-Keeps s k e) w)
  | inr z ↦ rw z (enter_room-WellFormed s k mainroom [] l c w)
]

pub chat_kick-WellFormed :
    (s : Station) (unum : ℕ) (m : Bytes) → WellFormed s → WellFormed (chat_kick s unum m)
unfolding chat_kick
chat_kick-WellFormed s unum m w = elim (Bool-cases (may_rule s unum)) [
  | inr p ↦ rw p (told s unum _ w)
  | inl p ↦ elim (Option-cases (chatid_to_indx s unum (nextword m).0)) [
    | inl e ↦ rw (p, e, chat_kick) (told s unum _ w)
    | inr (k, e) ↦ elim (Bool-cases (same_room (s.users unum).room (s.users k).room)) [
      | inr q ↦ rw (p, e, chat_kick, q) (told s unum _ w)
      | inl q ↦
          let (lk, ck) = chatid_to_indx_lem s unum (nextword m).0 k e in
          let out = exit_room_self s k exit_kick [] in
          rw (p, e, chat_kick, q)
            (banish-WellFormed (exit_room s k exit_kick []) k (s.users unum).room lk
              (ap connected out ∙ leave_connected (s.users k) ∙ ck)
              (ap (λ (u : ChatUser). u.room) out ∙ leave_room (s.users k))
              (exit_room-WellFormed s k exit_kick [] lk ck w))
    ]
  ]
]
