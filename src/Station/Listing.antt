-- ===== src/Station/Listing.antt =====
-- The listing commands of bbssrc/src/station.c, which only send. A line about a user is that user's
-- index; the source prints its names, room and host.
use firebird_bbs.Base.Text.{Bytes, atoi}
use firebird_bbs.Base.{
  ℕ, zero, suc, ◌+◌, Bool, true, false, not, ◌&&◌, ◌||◌, Option, none, some, List, [], ◌∷◌, ◌++◌,
  ◌==◌, leb, ltb, if◌then◌else◌, length,
}
use firebird_bbs.Station.{
  Station, no_rooms_for_guests, room_heading, user_heading, room_row, user_row, user_cells,
  no_such_room, secret_room, max_room, restricted, sysop, cloak_right, connected, in_room,
  roomid_to_indx, send_to_unum,
}
use firebird_bbs.Station.Commands.{nextword, is_space}

-- Whether room `i` is listed for user `unum`.
unfoldable pub room_shown : Station → ℕ → ℕ → Bool
room_shown s unum i =
    let r = s.rooms i in
    ltb 0 r.occupants && (sysop (s.users unum) || not (r.secret && not (in_room i (s.users unum))))

unfoldable pub list_rooms_loop : Station → ℕ → ℕ → ℕ → Station
list_rooms_loop s unum zero i = s
list_rooms_loop s unum (suc n) i =
    let r = s.rooms i in
    list_rooms_loop
      (if room_shown s unum i
        then send_to_unum s unum (room_row r.name r.occupants r.topic r.locked r.secret)
        else s)
      unum n (i + 1)

unfoldable pub chat_list_rooms : Station → ℕ → Station
chat_list_rooms s unum =
    if restricted (s.users unum)
    then send_to_unum s unum no_rooms_for_guests
    else list_rooms_loop (send_to_unum s unum room_heading) unum max_room 0

unfoldable pub same_room : Option ℕ → ℕ → Bool
same_room none r = false
same_room (some k) r = k == r

unfoldable pub in_listed_room : Station → ℕ → Option ℕ → ℕ → Bool
in_listed_room s unum whichroom rnum =
    (elim whichroom [ none ↦ true | some w ↦ w == rnum ])
    && (same_room (s.users unum).room rnum
        || not (restricted (s.users unum))
          && not ((s.rooms rnum).secret && not (sysop (s.users unum))))

-- Whether user `i` is listed for user `unum`; `none` is any room.
unfoldable pub user_shown : Station → ℕ → Option ℕ → ℕ → Bool
user_shown s unum whichroom i =
    let u = s.users i in
    connected u
    && not (u.cloak == 1 && not (cloak_right (s.users unum)))
    && (elim u.room [ none ↦ false | some rnum ↦ in_listed_room s unum whichroom rnum ])

-- The rows from number `start` to `stop`; `stop` 0 is no end. `curr` counts the users shown.
unfoldable pub user_list_loop : Station → ℕ → Option ℕ → ℕ → ℕ → ℕ → ℕ → ℕ → Station
user_list_loop s unum whichroom start stop zero i curr = s
user_list_loop s unum whichroom start stop (suc n) i curr =
    let skip = user_list_loop s unum whichroom start stop n (i + 1) curr in
    let before = user_list_loop s unum whichroom start stop n (i + 1) (curr + 1) in
    let row =
      user_list_loop (send_to_unum s unum (user_row i)) unum whichroom start stop n (i + 1)
        (curr + 1) in
    if user_shown s unum whichroom i
    then if ltb (curr + 1) start
      then before
      else if not (stop == 0) && ltb stop (curr + 1)
      then s
      else row
    else skip

abbrev is_digit : ℕ → Bool
is_digit c = leb b'0' c && leb c b'9'

unfoldable pub skip_while : (ℕ → Bool) → Bytes → Bytes
skip_while p [] = []
skip_while p (c ∷ s) = if p c then skip_while p s else c ∷ s

unfoldable pub chat_do_user_list : Station → ℕ → Bytes → Option ℕ → Station
chat_do_user_list s unum msg whichroom =
    let first = skip_while is_space msg in
    let second = skip_while (λ c. not (is_digit c)) (skip_while is_digit first) in
    user_list_loop (send_to_unum s unum user_heading) unum whichroom (atoi first) (atoi second)
      max_room 0 0

unfoldable pub list_named_room : Station → ℕ → Bytes → Bytes → Station
list_named_room s unum [] rest = chat_do_user_list s unum rest (s.users unum).room
list_named_room s unum (c ∷ roomstr) rest = elim (roomid_to_indx s (c ∷ roomstr)) [
  | none ↦ send_to_unum s unum (no_such_room (c ∷ roomstr))
  | some r ↦
      if (s.rooms r).secret && not (sysop (s.users unum))
      then send_to_unum s unum secret_room
      else chat_do_user_list s unum rest (some r)
]

unfoldable pub chat_list_by_room : Station → ℕ → Bytes → Station
chat_list_by_room s unum msg =
    let (roomstr, rest) = nextword msg in list_named_room s unum roomstr rest

unfoldable pub chat_list_users : Station → ℕ → Bytes → Station
chat_list_users s unum msg = chat_do_user_list s unum msg none

-- Three users to a line; the last argument holds the cells of the line so far.
unfoldable pub map_loop : Station → ℕ → Option ℕ → ℕ → ℕ → List ℕ → Station
map_loop s unum whichroom zero i [] = s
map_loop s unum whichroom zero i (c ∷ cells) = send_to_unum s unum (user_cells (c ∷ cells))
map_loop s unum whichroom (suc n) i cells =
    let skip = map_loop s unum whichroom n (i + 1) cells in
    let full =
      map_loop (send_to_unum s unum (user_cells (cells ++ i ∷ []))) unum whichroom n (i + 1) [] in
    let more = map_loop s unum whichroom n (i + 1) (cells ++ i ∷ []) in
    if user_shown s unum whichroom i then (if length cells == 2 then full else more) else skip

unfoldable pub chat_map_chatids_thisroom : Station → ℕ → Station
chat_map_chatids_thisroom s unum =
    map_loop (send_to_unum s unum user_heading) unum (s.users unum).room max_room 0 []
