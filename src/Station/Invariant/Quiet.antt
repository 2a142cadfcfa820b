-- ===== src/Station/Invariant/Quiet.antt =====
-- The commands of bbssrc/src/station.c that move nobody.
use firebird_bbs.Base.Text.{Bytes}
use firebird_bbs.Base.Maps.{update}
use firebird_bbs.Base.{
  ℕ, ◌-◌, ◌≡◌, refl, Bool, true, false, some, [], ◌∷◌, ◌==◌, arith, Bool-cases, Option-cases, inl,
  inr, take,
}
use firebird_bbs.Station.{
  Station, ChatRoom, set_user, set_room, send_to_room, send_to_unum, chat_idlen, chatid_to_indx,
  is_valid_chatid,
}
use firebird_bbs.Station.Occupancy.{
  Keeps, Keeps-refl, Keeps-trans, set_room-Keeps, send_to_room-Keeps, send_to_unum-Keeps,
}
use firebird_bbs.Station.Commands.{
  may_rule, rnum_of, chat_topic, mode_letter, toggle_mode, set_mode, set_modes, mode_list,
  signed_modes, chat_setroom, nextword, rename_user, chat_nick, chat_cloak, hand_over, chat_makeop,
  same_room, invite, chat_invite,
}

pub chat_topic-Keeps : (s : Station) (unum : ℕ) (msg : Bytes) → Keeps s (chat_topic s unum msg)
unfolding chat_topic set_room send_to_room send_to_unum update
chat_topic-Keeps s unum [] = record { who = λ i r. ground arith; counts = λ r. ground arith }
chat_topic-Keeps s unum (c ∷ msg) = record { who = λ i r. ground arith; counts = λ r. ground arith }

toggle_mode-counts :
    (sign flag : Bool) (room room' : ChatRoom)
    → toggle_mode sign flag room ≡ some room'
    → room'.occupants ≡ room.occupants
unfolding toggle_mode
toggle_mode-counts sign true room room' e = ground arith
toggle_mode-counts sign false room room' e = ground arith

set_mode-Keeps : (s : Station) (unum : ℕ) (sign flag : Bool) → Keeps s (set_mode s unum sign flag)
unfolding set_mode
set_mode-Keeps s unum sign flag =
    elim (Option-cases (toggle_mode sign flag (s.rooms (rnum_of s unum)))) [
      | inl e ↦ rw (e, set_mode) (Keeps-refl s)
      | inr (room, e) ↦
          rw (e, set_mode)
            (Keeps-trans
              (set_room-Keeps s (rnum_of s unum) room
                (toggle_mode-counts sign flag (s.rooms (rnum_of s unum)) room e))
              (send_to_room-Keeps _ _ _))
    ]

set_modes-Keeps :
    (s : Station) (unum : ℕ) (sign : Bool) (m : Bytes) → Keeps s (set_modes s unum sign m)
unfolding set_modes
set_modes-Keeps s unum sign [] = Keeps-refl s
set_modes-Keeps s unum sign (c ∷ m) = elim (Option-cases (mode_letter c)) [
  | inl e ↦ rw (e, set_modes) (send_to_unum-Keeps s unum _)
  | inr (flag, e) ↦
      rw (e, set_modes)
        (Keeps-trans (set_mode-Keeps s unum sign flag)
          (set_modes-Keeps (set_mode s unum sign flag) unum sign m))
]

mode_list-Keeps :
    (s : Station) (unum : ℕ) (sign : Bool) (m : Bytes) → Keeps s (mode_list s unum sign m)
unfolding mode_list
mode_list-Keeps s unum sign [] = send_to_unum-Keeps s unum _
mode_list-Keeps s unum sign (c ∷ m) = set_modes-Keeps s unum sign (c ∷ m)

signed_modes-Keeps : (s : Station) (unum : ℕ) (m : Bytes) → Keeps s (signed_modes s unum m)
unfolding signed_modes
signed_modes-Keeps s unum [] = mode_list-Keeps s unum true []
signed_modes-Keeps s unum (c ∷ m) = elim (Bool-cases (c == b'+')) [
  | inl p ↦ rw p (mode_list-Keeps s unum true m)
  | inr p ↦ elim (Bool-cases (c == b'-')) [
    | inl q ↦ rw (p, q) (mode_list-Keeps s unum false m)
    | inr q ↦ rw (p, q) (mode_list-Keeps s unum true (c ∷ m))
  ]
]

pub chat_setroom-Keeps : (s : Station) (unum : ℕ) (msg : Bytes) → Keeps s (chat_setroom s unum msg)
unfolding chat_setroom
chat_setroom-Keeps s unum msg = elim (Bool-cases (may_rule s unum)) [
  | inl p ↦ rw p (signed_modes-Keeps s unum (nextword msg).0)
  | inr p ↦ rw p (send_to_unum-Keeps s unum _)
]

rename_user-Keeps : (s : Station) (unum : ℕ) (id : Bytes) → Keeps s (rename_user s unum id)
unfolding rename_user set_user send_to_room send_to_unum update
rename_user-Keeps s unum id = record { who = λ i r. ground arith; counts = λ r. refl }

pub chat_nick-Keeps : (s : Station) (unum : ℕ) (msg : Bytes) → Keeps s (chat_nick s unum msg)
unfolding chat_nick
chat_nick-Keeps s unum msg =
    let id = take (chat_idlen - 1) (nextword msg).0 in
    elim (Bool-cases (is_valid_chatid id)) [
      | inr v ↦ rw v (send_to_unum-Keeps s unum _)
      | inl v ↦ elim (Option-cases (chatid_to_indx s 0 id)) [
        | inl e ↦ rw (v, e, chat_nick) (rename_user-Keeps s unum id)
        | inr (k, e) ↦ elim (Bool-cases (k == unum)) [
          | inl q ↦ rw (v, e, chat_nick, q) (rename_user-Keeps s unum id)
          | inr q ↦ rw (v, e, chat_nick, q) (send_to_unum-Keeps s unum _)
        ]
      ]
    ]

pub chat_cloak-Keeps : (s : Station) (unum : ℕ) → Keeps s (chat_cloak s unum)
unfolding chat_cloak set_user send_to_unum update
chat_cloak-Keeps s unum = record { who = λ i r. ground arith; counts = λ r. ground arith }

hand_over-Keeps : (s : Station) (unum k : ℕ) → Keeps s (hand_over s unum k)
unfolding hand_over set_user update
hand_over-Keeps s unum k = record { who = λ i r. ground arith; counts = λ r. refl }

pub chat_makeop-Keeps : (s : Station) (unum : ℕ) (msg : Bytes) → Keeps s (chat_makeop s unum msg)
unfolding chat_makeop
chat_makeop-Keeps s unum msg = elim (Bool-cases (may_rule s unum)) [
  | inr p ↦ rw p (send_to_unum-Keeps s unum _)
  | inl p ↦ elim (Option-cases (chatid_to_indx s unum (nextword msg).0)) [
    | inl e ↦ rw (p, e, chat_makeop) (send_to_unum-Keeps s unum _)
    | inr (k, e) ↦ elim (Bool-cases (unum == k)) [
      | inl q ↦ rw (p, e, chat_makeop, q) (send_to_unum-Keeps s unum _)
      | inr q ↦ elim (Bool-cases (same_room (s.users unum).room (s.users k).room)) [
        | inl t ↦
            rw (p, e, chat_makeop, q, t)
              (Keeps-trans (hand_over-Keeps s unum k) (send_to_room-Keeps _ _ _))
        | inr t ↦ rw (p, e, chat_makeop, q, t) (send_to_unum-Keeps s unum _)
      ]
    ]
  ]
]

invite-Keeps : (s : Station) (r k : ℕ) → Keeps s (invite s r k)
unfolding invite
invite-Keeps s r k = set_room-Keeps s r _ refl

pub chat_invite-Keeps : (s : Station) (unum : ℕ) (msg : Bytes) → Keeps s (chat_invite s unum msg)
unfolding chat_invite
chat_invite-Keeps s unum msg = elim (Bool-cases (may_rule s unum)) [
  | inr p ↦ rw p (send_to_unum-Keeps s unum _)
  | inl p ↦ elim (Option-cases (chatid_to_indx s unum (nextword msg).0)) [
    | inl e ↦ rw (p, e, chat_invite) (send_to_unum-Keeps s unum _)
    | inr (k, e) ↦ elim (Bool-cases ((s.rooms (rnum_of s unum)).invites k)) [
      | inl q ↦ rw (p, e, chat_invite, q) (send_to_unum-Keeps s unum _)
      | inr q ↦
          rw (p, e, chat_invite, q)
            (Keeps-trans (invite-Keeps s (rnum_of s unum) k)
              (Keeps-trans (send_to_unum-Keeps _ k _) (send_to_unum-Keeps _ unum _)))
    ]
  ]
]
