-- ===== src/Station/Commands.antt =====
-- The commands of bbssrc/src/station.c that change rooms, rights and names. `msg` is what stands
-- behind the command's word.
use firebird_bbs.Base.Text.{Bytes}
use firebird_bbs.Base.{
  ℕ, ◌-◌, Bool, true, false, ◌||◌, Option, none, some, [], ◌∷◌, ◌==◌, if◌then◌else◌, take,
}
use firebird_bbs.Station.{
  Station, ChatRoom, exit_kick, not_op, no_topic, no_such_id, not_here, topic_line, topic_changed,
  room_help, mode_unknown, mode_changed, bad_name, same_name_used, renamed, new_nick, cloak_changed,
  guests_stay, which_room, already_op, new_op, coming, invited_to, chat_idlen, restricted, sysop,
  cloak_right, room_op, set_user, set_room, is_valid_chatid, chatid_to_indx, send_to_room,
  send_to_unum,
}
use firebird_bbs.Station.Rooms.{mainroom, exit_room, enter_room, logout_user}

-- `strchr(" \t\n\r", ch)`
abbrev pub is_space : ℕ → Bool
is_space c = c == 32 || c == 9 || c == 10 || c == 13

unfoldable pub skip_spaces : Bytes → Bytes
skip_spaces [] = []
skip_spaces (c ∷ s) = if is_space c then skip_spaces s else c ∷ s

-- A word and what stands behind the one space that ends it.
unfoldable pub word_of : Bytes → Bytes × Bytes
word_of [] = ([], [])
word_of (c ∷ s) = let (w, rest) = word_of s in if is_space c then ([], s) else (c ∷ w, rest)

unfoldable pub nextword : Bytes → Bytes × Bytes
nextword s = word_of (skip_spaces s)

-- `ROOMOP(unum) || SYSOP(unum)`
abbrev pub may_rule : Station → ℕ → Bool
may_rule s unum = room_op (s.users unum) || sysop (s.users unum)

-- The room number of a user; a user in no room has -1, which no caller below is left with.
abbrev pub rnum_of : Station → ℕ → ℕ
rnum_of s unum = elim (s.users unum).room [ none ↦ 0 | some r ↦ r ]

unfoldable pub chat_topic : Station → ℕ → Bytes → Station
chat_topic s unum [] =
    if may_rule s unum then send_to_unum s unum no_topic else send_to_unum s unum not_op
chat_topic s unum (c ∷ msg) =
    let r = rnum_of s unum in
    let s1 = set_room s r (record (s.rooms r) { topic = take 47 (c ∷ msg) }) in
    let s2 = send_to_room s1 (s.users unum).room (topic_line (take 47 (c ∷ msg))) in
    if may_rule s unum
    then send_to_room s2 (s.users unum).room (topic_changed (s.users unum).chatid (c ∷ msg))
    else send_to_unum s unum not_op

-- The mode letters: `some true` is ROOM_LOCKED, `some false` is ROOM_SECRET.
unfoldable pub mode_letter : ℕ → Option Bool
mode_letter c =
    if c == b'l' || c == b'L'
    then some true
    else if c == b's' || c == b'S'
    then some false
    else none

-- `(rooms[rnum].flags & flag) != sign * flag` and the toggle.
unfoldable pub toggle_mode : Bool → Bool → ChatRoom → Option ChatRoom
toggle_mode sign true room =
    if sign
    then if room.locked then none else some (record room { locked = true })
    else if room.locked
    then some (record room { locked = false })
    else none
toggle_mode sign false room =
    if sign
    then if room.secret then none else some (record room { secret = true })
    else if room.secret
    then some (record room { secret = false })
    else none

unfoldable pub set_mode : Station → ℕ → Bool → Bool → Station
set_mode s unum sign flag =
    let r = rnum_of s unum in
    elim (toggle_mode sign flag (s.rooms r)) [
      | none ↦ s
      | some room ↦
          send_to_room (set_room s r room) (s.users unum).room
            (mode_changed (s.users unum).chatid sign flag)
    ]

-- `while (*modestr)`
unfoldable pub set_modes : Station → ℕ → Bool → Bytes → Station
set_modes s unum sign [] = s
set_modes s unum sign (c ∷ modestr) = elim (mode_letter c) [
  | none ↦ send_to_unum s unum (mode_unknown c)
  | some flag ↦ set_modes (set_mode s unum sign flag) unum sign modestr
]

unfoldable pub mode_list : Station → ℕ → Bool → Bytes → Station
mode_list s unum sign [] = send_to_unum s unum room_help
mode_list s unum sign (c ∷ modestr) = set_modes s unum sign (c ∷ modestr)

unfoldable pub signed_modes : Station → ℕ → Bytes → Station
signed_modes s unum [] = mode_list s unum true []
signed_modes s unum (c ∷ modestr) =
    if c == b'+'
    then mode_list s unum true modestr
    else if c == b'-'
    then mode_list s unum false modestr
    else mode_list s unum true (c ∷ modestr)

unfoldable pub chat_setroom : Station → ℕ → Bytes → Station
chat_setroom s unum msg =
    if may_rule s unum then signed_modes s unum (nextword msg).0 else send_to_unum s unum not_op

unfoldable pub rename_user : Station → ℕ → Bytes → Station
rename_user s unum chatid =
    let u = s.users unum in
    let s1 = send_to_room s u.room (renamed u.chatid chatid) in
    send_to_unum (set_user s1 unum (record u { chatid = chatid })) unum (new_nick chatid)

unfoldable pub chat_nick : Station → ℕ → Bytes → Station
chat_nick s unum msg =
    let chatid = take (chat_idlen - 1) (nextword msg).0 in
    if is_valid_chatid chatid
    then elim (chatid_to_indx s 0 chatid) [
      | none ↦ rename_user s unum chatid
      | some othernum ↦
          if othernum == unum then rename_user s unum chatid else send_to_unum s unum same_name_used
    ]
    else send_to_unum s unum bad_name

unfoldable pub chat_cloak : Station → ℕ → Station
chat_cloak s unum =
    let u = s.users unum in
    let u' = record u { cloak = if u.cloak == 1 then 0 else 1 } in
    if cloak_right u
    then send_to_unum (set_user s unum u') unum (cloak_changed u.chatid (u'.cloak == 1))
    else s

unfoldable pub join_named : Station → ℕ → Bytes → Bytes → Station
join_named s unum [] msg = send_to_unum s unum which_room
join_named s unum (c ∷ roomid) msg = enter_room s unum (c ∷ roomid) msg

unfoldable pub chat_join : Station → ℕ → Bytes → Station
chat_join s unum msg =
    let (roomid, rest) = nextword msg in
    if restricted (s.users unum)
    then send_to_unum s unum guests_stay
    else join_named s unum roomid rest

unfoldable pub same_room : Option ℕ → Option ℕ → Bool
same_room none none = true
same_room (some a) (some b) = a == b
same_room _ _ = false

-- The last step of `chat_kick`: out of the main room means out of the station.
unfoldable pub banish : Station → ℕ → Option ℕ → Station
banish s recunum rnum = elim rnum [
  | none ↦ enter_room s recunum mainroom []
  | some r ↦ if r == 0 then logout_user s recunum else enter_room s recunum mainroom []
]

unfoldable pub chat_kick : Station → ℕ → Bytes → Station
chat_kick s unum msg =
    let twit = (nextword msg).0 in
    let rnum = (s.users unum).room in
    if may_rule s unum
    then elim (chatid_to_indx s unum twit) [
      | none ↦ send_to_unum s unum (no_such_id twit)
      | some recunum ↦
          if same_room rnum (s.users recunum).room
          then banish (exit_room s recunum exit_kick []) recunum rnum
          else send_to_unum s unum (not_here (s.users recunum).chatid)
    ]
    else send_to_unum s unum not_op

-- `users[unum].flags &= ~PERM_CHATROOM; users[recunum].flags |= PERM_CHATROOM;`
unfoldable pub hand_over : Station → ℕ → ℕ → Station
hand_over s unum recunum =
    let u = s.users unum in
    let s1 = set_user s unum (record u { flags = record u.flags { chat_room = false } }) in
    let v = s1.users recunum in
    set_user s1 recunum (record v { flags = record v.flags { chat_room = true } })

unfoldable pub chat_makeop : Station → ℕ → Bytes → Station
chat_makeop s unum msg =
    let newop = (nextword msg).0 in
    let rnum = (s.users unum).room in
    if may_rule s unum
    then elim (chatid_to_indx s unum newop) [
      | none ↦ send_to_unum s unum (no_such_id newop)
      | some recunum ↦
          if unum == recunum
          then send_to_unum s unum already_op
          else if same_room rnum (s.users recunum).room
          then send_to_room (hand_over s unum recunum) rnum
              (new_op (s.users unum).chatid (s.users recunum).chatid)
          else send_to_unum s unum (not_here (s.users recunum).chatid)
    ]
    else send_to_unum s unum not_op

unfoldable pub invite : Station → ℕ → ℕ → Station
invite s r recunum =
    let room = s.rooms r in
    set_room s r (record room { invites = λ i. if i == recunum then true else room.invites i })

unfoldable pub chat_invite : Station → ℕ → Bytes → Station
chat_invite s unum msg =
    let invitee = (nextword msg).0 in
    let r = rnum_of s unum in
    if may_rule s unum
    then elim (chatid_to_indx s unum invitee) [
      | none ↦ send_to_unum s unum (not_here invitee)
      | some recunum ↦
          let id = (s.users recunum).chatid in
          let told =
            send_to_unum (invite s r recunum) recunum
              (invited_to (s.users unum).chatid (s.rooms r).name) in
          if (s.rooms r).invites recunum
          then send_to_unum s unum (coming id [])
          else send_to_unum told unum (coming id [])
    ]
    else send_to_unum s unum not_op
