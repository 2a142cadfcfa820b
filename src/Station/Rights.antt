-- ===== src/Station/Rights.antt =====
-- The guards of bbssrc/src/station.c on entering a room and on ruling it.
use firebird_bbs.Base.Text.{Bytes}
use firebird_bbs.Base.Maps.{update}
use firebird_bbs.Base.{
  ℕ, ◌≡◌, ◌≢◌, refl, sym, ◌∙◌, ap, Bool, true, false, Option, none, some, [], ◌∷◌, arith,
  Bool-cases, Option-cases, inl, inr, ◌⊎◌,
}
use firebird_bbs.Station.{
  Station, ChatUser, ChatRoom, exit_logout, not_op, room_is_locked, outsider, sysop, set_user,
  set_room, send_to_room, send_to_unum, roomid_to_indx,
}
use firebird_bbs.Station.Rooms.{
  leave_rooms, exit_room, free_room, new_room, settle, announce, shut_out, move_to, open_room,
  enter_room,
}
use firebird_bbs.Station.Moves.{exit_room_self, free_room_lem}
use firebird_bbs.Station.Commands.{
  may_rule, chat_topic, chat_setroom, chat_invite, chat_kick, chat_makeop,
}
use firebird_bbs.Station.Session.{ChatCmd, flags, invite, kick, operator, topic, run_command}

-- The user's entry and its invitation once it has moved.
pub record Entered (s : Station) (unum k : ℕ) (op : Bool) : Type 0 where
  pub in_room_k : (s.users unum).room ≡ some k
  pub rules : (s.users unum).flags.chat_room ≡ op
  pub invitation_used : (s.rooms k).invites unum ≡ false

settle-Entered :
    (s : Station) (unum k : ℕ) (op : Bool)
    → (s.users unum).flags.chat_room ≡ false
    → Entered (settle s unum k op) unum k op
unfolding settle set_user set_room update
settle-Entered s unum k op f = record {
  in_room_k = ground arith;
  rules = ground arith;
  invitation_used = ground arith;
}

announce_users :
    (s : Station) (unum k : ℕ) (room : Bytes) → (announce s unum k room).users ≡ s.users
unfolding announce send_to_room send_to_unum
announce_users s unum k room = ground arith

announce_rooms :
    (s : Station) (unum k : ℕ) (room : Bytes) → (announce s unum k room).rooms ≡ s.rooms
unfolding announce send_to_room send_to_unum
announce_rooms s unum k room = ground arith

pub move_to-Entered :
    (s : Station) (unum k : ℕ) (op : Bool) (room msg : Bytes)
    → shut_out s unum k ≡ false
    → Entered (move_to s unum k op room msg) unum k op
unfolding move_to
move_to-Entered s unum k op room msg free =
    let s1 = exit_room s unum exit_logout msg in
    let s2 = settle s1 unum k op in
    let e = settle-Entered s1 unum k op (
      ap (λ (u : ChatUser). u.flags.chat_room) (exit_room_self s unum exit_logout msg)
      ∙ unfold leave_rooms in refl) in
    let us = announce_users s2 unum k room in
    let rs = announce_rooms s2 unum k room in
    rw free record {
      in_room_k = ap (λ (f : ℕ → ChatUser). (f unum).room) us ∙ e.in_room_k;
      rules = ap (λ (f : ℕ → ChatUser). (f unum).flags.chat_room) us ∙ e.rules;
      invitation_used = ap (λ (f : ℕ → ChatRoom). (f k).invites unum) rs ∙ e.invitation_used;
    }

move_to_shut :
    (s : Station) (unum k : ℕ) (op : Bool) (room msg : Bytes)
    → shut_out s unum k ≡ true
    → move_to s unum k op room msg ≡ send_to_unum s unum room_is_locked
unfolding move_to
move_to_shut s unum k op room msg e = rw e

-- Whoever enters a room that is open to it by the room's name is in that room afterwards, without
-- the right to rule it, and its invitation is used up.
pub enter_room_old :
    (s : Station) (unum k : ℕ) (room msg : Bytes)
    → roomid_to_indx s room ≡ some k
    → shut_out s unum k ≡ false
    → Entered (enter_room s unum room msg) unum k false
unfolding enter_room
enter_room_old s unum k room msg e free =
    rw (e, enter_room) (move_to-Entered s unum k false room msg free)

-- A name that no room has opens the first free room, if the user may open rooms; the user rules it.
pub enter_room_new :
    (s : Station) (unum k : ℕ) (room msg : Bytes)
    → roomid_to_indx s room ≡ none
    → outsider (s.users unum) ≡ false
    → free_room s ≡ some k
    → Entered (enter_room s unum room msg) unum k true
unfolding enter_room open_room set_room new_room update
enter_room_new s unum k room msg e o f =
    rw (e, enter_room, o, f)
      (move_to-Entered (set_room s k (new_room s room)) unum k true room msg (ground arith))

-- What lets a user into room `r`.
abbrev pub Entitled : Station → ℕ → ℕ → Type 0
Entitled s unum r =
    ((s.rooms r).occupants ≡ 0)
    ⊎ (sysop (s.users unum) ≡ true)
    ⊎ ((s.rooms r).locked ≡ false)
    ⊎ ((s.rooms r).invites unum ≡ true)

module _ (s : Station) (unum r : ℕ) (away : (s.users unum).room ≢ some r) where
  move_to-Entitled :
      (t : Station) (k : ℕ) (op : Bool) (room msg : Bytes)
      → t.users ≡ s.users
      → ((move_to t unum k op room msg).users unum).room ≡ some r
      → (k ≡ r) × (shut_out t unum k ≡ false)
  unfolding send_to_unum
  move_to-Entitled t k op room msg same at_r = elim (Bool-cases (shut_out t unum k)) [
    | inl shut ↦ absurd (
        away (
          sym (ap (λ (f : ℕ → ChatUser). (f unum).room) same)
          ∙ sym (ap (λ (x : Station). (x.users unum).room) (move_to_shut t unum k op room msg shut))
          ∙ at_r))
    | inr free ↦
        let e = move_to-Entered t unum k op room msg free in
        (some_inj (sym e.in_room_k ∙ at_r), free)
  ]
    where
      some_inj : {a b : ℕ} → ◌≡◌ {A = Option ℕ} (some a) (some b) → a ≡ b
      some_inj e = cc

  entitled : (k : ℕ) → k ≡ r → shut_out s unum k ≡ false → Entitled s unum r
  entitled k e free = rw (← e) (ground arith)

  open_room-Entitled :
      (room msg : Bytes)
      → ((open_room s unum room msg).users unum).room ≡ some r
      → Entitled s unum r
  unfolding open_room send_to_unum
  open_room-Entitled room msg at_r = elim (Bool-cases (outsider (s.users unum))) [
    | inl o ↦ absurd (away (rw o at at_r))
    | inr o ↦ elim (Option-cases (free_room s)) [
      | inl e ↦ absurd (away (rw (o, e, open_room) at at_r))
      | inr (k, e) ↦
          let (same, _) =
            move_to-Entitled (set_room s k (new_room s room)) k true room msg
              (unfold set_room in refl) (rw (o, e, open_room) at at_r) in
          let (_, _, empty) = free_room_lem s k e in inl (rw same at empty)
    ]
  ]

  -- A user that is in room `r` after `enter_room`, and was not before, was entitled to it: nobody
  -- was in the room, or the user is a sysop, or the room was not locked, or the user was invited.
  pub enter_room-Entitled :
      (room msg : Bytes)
      → ((enter_room s unum room msg).users unum).room ≡ some r
      → Entitled s unum r
  unfolding enter_room
  enter_room-Entitled room msg at_r = elim (Option-cases (roomid_to_indx s room)) [
    | inl e ↦ open_room-Entitled room msg (rw (e, enter_room) at at_r)
    | inr (k, e) ↦
        let (same, free) = move_to-Entitled s k false room msg refl (rw (e, enter_room) at at_r) in
        entitled k same free
  ]

-- The commands that are for a room's ruler.
abbrev pub ruling : ChatCmd → Bool
ruling flags = true
ruling invite = true
ruling kick = true
ruling operator = true
ruling topic = true
ruling _ = false

denied_topic :
    (s : Station) (unum : ℕ) (m : Bytes)
    → may_rule s unum ≡ false
    → chat_topic s unum m ≡ send_to_unum s unum not_op
unfolding chat_topic
denied_topic s unum [] h = rw h
denied_topic s unum (x ∷ m) h = rw h

-- A user that neither rules its room nor is a sysop gets one message from each of these commands,
-- and nothing else happens: no room, no user and no right changes.
pub run_command_denied :
    (s : Station) (unum : ℕ) (cmd : ChatCmd) (m : Bytes)
    → ruling cmd ≡ true
    → may_rule s unum ≡ false
    → run_command s unum cmd m ≡ send_to_unum s unum not_op
unfolding run_command chat_setroom chat_invite chat_kick chat_makeop
run_command_denied s unum flags m r h = rw h
run_command_denied s unum invite m r h = rw h
run_command_denied s unum kick m r h = rw h
run_command_denied s unum operator m r h = rw h
run_command_denied s unum topic m r h = denied_topic s unum m h
run_command_denied s unum _ m r h = absurd (cc)
