-- ===== src/Station/Rooms.antt =====
-- `exit_room`, `enter_room`, `logout_user` and `print_user_counts` of bbssrc/src/station.c.
use firebird_bbs.Base.Text.{Bytes, codes}
use firebird_bbs.Base.Maps.{first_from, count_below}
use firebird_bbs.Base.{
  ℕ, ◌+◌, ◌-◌, Bool, true, false, not, ◌&&◌, ◌||◌, Option, none, some, [], ltb, ◌==◌, if◌then◌else◌,
  take,
}
use firebird_bbs.Station.{
  Station, ChatUser, ChatRoom, Disp, exit_logout, exit_lostconn, exit_kick, left, no_new_rooms,
  rooms_full, room_is_locked, entered, entered_room, topic_line, counts, max_room, idlen, sysop,
  outsider, connected, set_user, set_room, roomid_to_indx, send_to_room, send_to_unum,
}

-- The mode that the main room has: `char mainroom[] = "main"`.
abbrev pub mainroom : Bytes
mainroom = codes "main"

-- Only a logout carries a message, of at most 80 characters.
unfoldable pub farewell : Disp → Bytes → Bytes
farewell exit_logout msg = take 80 msg
farewell exit_lostconn msg = []
farewell exit_kick msg = []

-- `users[unum].flags &= ~PERM_CHATROOM; users[unum].room = -1;`
unfoldable pub leave_rooms : ChatUser → ChatUser
leave_rooms u = record u { flags = record u.flags { chat_room = false }; room = none }

-- `--rooms[oldrnum].occupants`, and the message if that is not 0.
unfoldable pub vacate : Station → ℕ → ℕ → Disp → Bytes → Station
vacate s unum old disp msg =
    let room = s.rooms old in
    let s' = set_room s old (record room { occupants = room.occupants - 1 }) in
    if not (room.occupants == 1) && (s.users unum).cloak == 0
    then send_to_room s' (some old) (left disp (s.users unum).chatid (farewell disp msg))
    else s'

-- A null message is the empty one.
unfoldable pub exit_room : Station → ℕ → Disp → Bytes → Station
exit_room s unum disp msg = elim (s.users unum).room [
  | none ↦ set_user s unum (leave_rooms (s.users unum))
  | some old ↦ set_user (vacate s unum old disp msg) unum (leave_rooms (s.users unum))
]

-- The first room from 1 on that nobody is in.
unfoldable pub free_room : Station → Option ℕ
free_room s = first_from (max_room - 1) 1 (λ i. (s.rooms i).occupants == 0)

unfoldable pub new_room : Station → Bytes → ChatRoom
new_room s name = record {
  name = take (idlen - 1) name;
  occupants = 0;
  locked = false;
  secret = false;
  invites = λ i. false;
  topic = s.maintopic;
}

-- The user is in room `rnum` from here on; `op` is set for a room that was made for it.
unfoldable pub settle : Station → ℕ → ℕ → Bool → Station
settle s unum rnum op =
    let u = s.users unum in
    let r = s.rooms rnum in
    let u' = record u {
      room = some rnum;
      flags = record u.flags { chat_room = u.flags.chat_room || op };
    } in
    let r' = record r {
      occupants = r.occupants + 1;
      invites = λ i. if i == unum then false else r.invites i;
    } in
    set_room (set_user s unum u') rnum r'

-- What is sent once the user has entered.
unfoldable pub announce : Station → ℕ → ℕ → Bytes → Station
announce s unum rnum room =
    let u = s.users unum in
    let r = s.rooms rnum in
    let s' = if u.cloak == 0 then send_to_room s (some rnum) (entered u.chatid r.name) else s in
    send_to_unum (send_to_unum s' unum (entered_room room)) unum (topic_line r.topic)

-- `if (!SYSOP(unum)) if (LOCKED(rnum) && rooms[rnum].invites[unum] == 0)`
abbrev pub shut_out : Station → ℕ → ℕ → Bool
shut_out s unum rnum =
    not (sysop (s.users unum)) && (s.rooms rnum).locked && not ((s.rooms rnum).invites unum)

unfoldable pub move_to : Station → ℕ → ℕ → Bool → Bytes → Bytes → Station
move_to s unum rnum op room msg =
    if shut_out s unum rnum
    then send_to_unum s unum room_is_locked
    else announce (settle (exit_room s unum exit_logout msg) unum rnum op) unum rnum room

unfoldable pub open_room : Station → ℕ → Bytes → Bytes → Station
open_room s unum room msg =
    if outsider (s.users unum) then send_to_unum s unum no_new_rooms else elim (free_room s) [
      | none ↦ send_to_unum s unum rooms_full
      | some i ↦ move_to (set_room s i (new_room s room)) unum i true room msg
    ]

unfoldable pub enter_room : Station → ℕ → Bytes → Bytes → Station
enter_room s unum room msg = elim (roomid_to_indx s room) [
  | none ↦ open_room s unum room msg
  | some i ↦ move_to s unum i false room msg
]

-- `memset` to 0, and -1 in `sockfd`, `utent` and `room`.
unfoldable pub blank_user : ChatUser
blank_user = record {
  sockfd = none;
  utent = none;
  room = none;
  flags = record {
    sysop = false;
    chat_cloak = false;
    chat_room = false;
    deny_post = false;
    other = 0;
  };
  cloak = 0;
  userid = [];
  chatid = [];
  ibuf = [];
  host = [];
}

unfoldable pub logout_user : Station → ℕ → Station
logout_user s unum =
    let s' = set_user s unum blank_user in
    record s' {
      rooms = λ r.
          let room = s'.rooms r in
          record room { invites = λ i. if i == unum then false else room.invites i };
    }

-- Whether users[i] counts, and whether its room is hidden from user `unum`.
unfoldable pub present : Station → ℕ → Bool
present s i =
    connected (s.users i)
    && (elim (s.users i).room [ none ↦ false | some r ↦ true ])
    && (s.users i).cloak == 0

unfoldable pub hidden_room : Station → ℕ → ℕ → Bool
hidden_room s unum i =
    (elim (s.users i).room [ none ↦ false | some r ↦ (s.rooms r).secret ])
    && not (sysop (s.users unum))

-- The loop goes over the rooms, and over the users of the same indices.
unfoldable pub print_user_counts : Station → ℕ → Station
print_user_counts s unum =
    let roomc = count_below max_room (λ i.
      ltb 0 i && ltb 0 (s.rooms i).occupants && (not (s.rooms i).secret || sysop (s.users unum))) in
    let suserc = count_below max_room (λ i. present s i && hidden_room s unum i) in
    let userc = count_below max_room (λ i. present s i && not (hidden_room s unum i)) in
    send_to_unum s unum (counts (roomc + 1) (userc + 1) suserc)
