-- ===== src/Station/Invariant/Spoken.antt =====
-- The talking and listing commands of bbssrc/src/station.c.
use firebird_bbs.Base.Text.{Bytes}
use firebird_bbs.Base.{
  ℕ, zero, suc, ◌+◌, ◌≡◌, refl, ◌∙◌, ap, Option, none, some, List, [], ◌∷◌, ◌++◌, arith, Bool-cases,
  Option-cases, inl, inr, take, not, ◌&&◌,
}
use firebird_bbs.Station.{
  Station, ChatUser, ChatRoom, Message, note_from, send_to_room, send_to_unum, max_room, sysop,
  restricted, roomid_to_indx, room_row, user_row, user_cells,
}
use firebird_bbs.Station.Occupancy.{Keeps, inside}
use firebird_bbs.Station.Commands.{nextword}
use firebird_bbs.Station.Talk.{
  Who, nobody, several, one, fuzzy_chatid_to_indx, pass_note, chat_private, chat_allmsg, chat_act,
  broadcast_text, chat_broadcast, party_with, party_action, speak_action, condition_action,
}
use firebird_bbs.Station.Listing.{
  list_rooms_loop, room_shown, chat_list_rooms, user_list_loop, chat_do_user_list, list_named_room,
  chat_list_by_room, chat_list_users, map_loop, chat_map_chatids_thisroom,
}

-- The two stations differ in what has been sent at most.
pub record SameState (s s' : Station) : Type 0 where
  pub same_users : s'.users ≡ s.users
  pub same_rooms : s'.rooms ≡ s.rooms

pub SameState-Keeps : {s s' : Station} → SameState s s' → Keeps s s'
SameState-Keeps {s} {s'} e = record {
  who = λ i r. ap (λ (f : ℕ → ChatUser). inside r (f i)) e.same_users;
  counts = λ r. ap (λ (f : ℕ → ChatRoom). (f r).occupants) e.same_rooms;
}

SameState-trans : {s t u : Station} → SameState s t → SameState t u → SameState s u
SameState-trans a b = record {
  same_users = b.same_users ∙ a.same_users;
  same_rooms = b.same_rooms ∙ a.same_rooms;
}

SameState-refl : (s : Station) → SameState s s
SameState-refl s = record { same_users = refl; same_rooms = refl }

pub told_one : (s : Station) (i : ℕ) (m : Message) → SameState s (send_to_unum s i m)
unfolding send_to_unum
told_one s i m = record { same_users = refl; same_rooms = refl }

pub told_room : (s : Station) (r : Option ℕ) (m : Message) → SameState s (send_to_room s r m)
unfolding send_to_room
told_room s r m = record { same_users = refl; same_rooms = refl }

pub chat_private-SameState :
    (s : Station) (unum : ℕ) (msg : Bytes) → SameState s (chat_private s unum msg)
unfolding chat_private pass_note
chat_private-SameState s unum msg = by_who (fuzzy_chatid_to_indx s unum (nextword msg).0) refl
  where
    note : (k : ℕ) (m : Bytes) → SameState s (pass_note s unum k m)
    note k [] = told_one s unum _
    note k (c ∷ m) =
        SameState-trans (told_one s k (note_from (s.users unum).chatid (take 80 (c ∷ m))))
          (told_one _ unum _)

    by_who :
        (w : Who)
        → fuzzy_chatid_to_indx s unum (nextword msg).0 ≡ w
        → SameState s (chat_private s unum msg)
    by_who nobody e = rw (e, chat_private) (told_one s unum _)
    by_who several e = rw (e, chat_private) (told_one s unum _)
    by_who (one k) e = rw (e, chat_private) (note k (nextword msg).1)

pub chat_allmsg-SameState :
    (s : Station) (unum : ℕ) (msg : Bytes) → SameState s (chat_allmsg s unum msg)
unfolding chat_allmsg
chat_allmsg-SameState s unum [] = SameState-refl s
chat_allmsg-SameState s unum (c ∷ msg) = told_room s _ _

pub chat_act-SameState : (s : Station) (unum : ℕ) (msg : Bytes) → SameState s (chat_act s unum msg)
unfolding chat_act
chat_act-SameState s unum [] = SameState-refl s
chat_act-SameState s unum (c ∷ msg) = told_room s _ _

broadcast_text-SameState :
    (s : Station) (unum : ℕ) (msg : Bytes) → SameState s (broadcast_text s unum msg)
unfolding broadcast_text
broadcast_text-SameState s unum [] = told_one s unum _
broadcast_text-SameState s unum (c ∷ msg) = SameState-trans (told_room s _ _) (told_room _ _ _)

pub chat_broadcast-SameState :
    (s : Station) (unum : ℕ) (msg : Bytes) → SameState s (chat_broadcast s unum msg)
unfolding chat_broadcast
chat_broadcast-SameState s unum msg = elim (Bool-cases (sysop (s.users unum))) [
  | inl p ↦ rw p (broadcast_text-SameState s unum msg)
  | inr p ↦ rw p (told_one s unum _)
]

party_with-SameState :
    (s : Station) (unum : ℕ) (cmd who : Bytes) → SameState s (party_with s unum cmd who)
unfolding party_with
party_with-SameState s unum cmd [] = told_room s _ _
party_with-SameState s unum cmd (c ∷ p) = by_who (fuzzy_chatid_to_indx s unum (c ∷ p)) refl
  where
    by_who :
        (w : Who)
        → fuzzy_chatid_to_indx s unum (c ∷ p) ≡ w
        → SameState s (party_with s unum cmd (c ∷ p))
    by_who nobody e = rw (e, party_with) (told_one s unum _)
    by_who several e = rw (e, party_with) (told_one s unum _)
    by_who (one k) e = rw (e, party_with) (told_room s _ _)

-- A social command that is found changes nothing but what has been sent.
pub party_action-SameState :
    (s t : Station) (unum : ℕ) (cmd who : Bytes)
    → party_action s unum cmd who ≡ some t
    → SameState s t
unfolding party_action
party_action-SameState s t unum cmd who e =
    let found : t ≡ party_with s unum cmd who = ground arith in
    rw found (party_with-SameState s unum cmd who)

pub speak_action-SameState :
    (s t : Station) (unum : ℕ) (cmd msg : Bytes)
    → speak_action s unum cmd msg ≡ some t
    → SameState s t
unfolding speak_action send_to_room
speak_action-SameState s t unum cmd msg e = ground arith

pub condition_action-SameState :
    (s t : Station) (unum : ℕ) (cmd : Bytes) → condition_action s unum cmd ≡ some t → SameState s t
unfolding condition_action send_to_room
condition_action-SameState s t unum cmd e = ground arith

list_rooms_loop-SameState : (s : Station) (unum n i : ℕ) → SameState s (list_rooms_loop s unum n i)
unfolding list_rooms_loop
list_rooms_loop-SameState s unum zero i = SameState-refl s
list_rooms_loop-SameState s unum (suc n) i = elim (Bool-cases (room_shown s unum i)) [
  | inl p ↦
      rw (p, list_rooms_loop)
        (let r = s.rooms i in
          SameState-trans (told_one s unum _) (
            list_rooms_loop-SameState
              (send_to_unum s unum (room_row r.name r.occupants r.topic r.locked r.secret)) unum n
              (i + 1)))
  | inr p ↦ rw (p, list_rooms_loop) (list_rooms_loop-SameState s unum n (i + 1))
]

pub chat_list_rooms-SameState : (s : Station) (unum : ℕ) → SameState s (chat_list_rooms s unum)
unfolding chat_list_rooms
chat_list_rooms-SameState s unum = elim (Bool-cases (restricted (s.users unum))) [
  | inl p ↦ rw p (told_one s unum _)
  | inr p ↦ rw p (SameState-trans (told_one s unum _) (list_rooms_loop-SameState _ unum max_room 0))
]

user_list_loop-SameState :
    (s : Station) (unum : ℕ) (w : Option ℕ) (start stop n i curr : ℕ)
    → SameState s (user_list_loop s unum w start stop n i curr)
unfolding user_list_loop
user_list_loop-SameState s unum w start stop zero i curr = SameState-refl s
user_list_loop-SameState s unum w start stop (suc n) i curr = ground (
  arith,
  user_list_loop-SameState s unum w start stop n (i + 1) curr,
  user_list_loop-SameState s unum w start stop n (i + 1) (curr + 1),
  told_one s unum (user_row i),
  user_list_loop-SameState (send_to_unum s unum (user_row i)) unum w start stop n (i + 1)
      (curr + 1),
)

do_user_list-SameState :
    (s : Station) (unum : ℕ) (msg : Bytes) (w : Option ℕ)
    → SameState s (chat_do_user_list s unum msg w)
unfolding chat_do_user_list
do_user_list-SameState s unum msg w =
    SameState-trans (told_one s unum _) (user_list_loop-SameState _ unum w _ _ max_room 0 0)

list_named-SameState :
    (s : Station) (unum : ℕ) (name rest : Bytes) → SameState s (list_named_room s unum name rest)
unfolding list_named_room
list_named-SameState s unum [] rest = do_user_list-SameState s unum rest _
list_named-SameState s unum (c ∷ name) rest = elim (Option-cases (roomid_to_indx s (c ∷ name))) [
  | inl e ↦ rw (e, list_named_room) (told_one s unum _)
  | inr (r, e) ↦ elim (Bool-cases ((s.rooms r).secret && not (sysop (s.users unum)))) [
    | inl p ↦ rw (e, list_named_room, p) (told_one s unum _)
    | inr p ↦ rw (e, list_named_room, p) (do_user_list-SameState s unum rest (some r))
  ]
]

pub chat_list_by_room-SameState :
    (s : Station) (unum : ℕ) (msg : Bytes) → SameState s (chat_list_by_room s unum msg)
unfolding chat_list_by_room
chat_list_by_room-SameState s unum msg =
    list_named-SameState s unum (nextword msg).0 (nextword msg).1

pub chat_list_users-SameState :
    (s : Station) (unum : ℕ) (msg : Bytes) → SameState s (chat_list_users s unum msg)
unfolding chat_list_users
chat_list_users-SameState s unum msg = do_user_list-SameState s unum msg none

map_loop-SameState :
    (s : Station) (unum : ℕ) (w : Option ℕ) (n i : ℕ) (cells : List ℕ)
    → SameState s (map_loop s unum w n i cells)
unfolding map_loop
map_loop-SameState s unum w zero i [] = SameState-refl s
map_loop-SameState s unum w zero i (c ∷ cells) = told_one s unum _
map_loop-SameState s unum w (suc n) i cells = ground (
  arith,
  map_loop-SameState s unum w n (i + 1) cells,
  map_loop-SameState s unum w n (i + 1) (cells ++ i ∷ []),
  told_one s unum (user_cells (cells ++ i ∷ [])),
  map_loop-SameState (send_to_unum s unum (user_cells (cells ++ i ∷ []))) unum w n (i + 1) [],
)

pub chat_map_chatids-SameState :
    (s : Station) (unum : ℕ) → SameState s (chat_map_chatids_thisroom s unum)
unfolding chat_map_chatids_thisroom
chat_map_chatids-SameState s unum =
    SameState-trans (told_one s unum _) (map_loop-SameState _ unum _ max_room 0 [])
