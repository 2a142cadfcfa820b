-- ===== src/Station/Tests.antt =====
-- Runs of bbssrc/src/station.c at concrete inputs.
use firebird_bbs.Base.Text.{bytes_eq, codes, same_name, to_lower, in_bytes, Bytes}
use firebird_bbs.Base.Maps.{first_from, update}
use firebird_bbs.Base.{
  ◌++◌, ℕ, zero, suc, ◌<◌, ◌≡◌, ◌↔◌, refl, true, false, some, [], ◌∷◌, arith, ◌==◌,
}
use firebird_bbs.Station.{
  Station, ChatUser, ChatRoom, Flags, no_topic, max_room, connected, in_room, roomid_to_indx,
  send_to_room, max_active, set_user,
}
use firebird_bbs.Station.Rooms.{blank_user, enter_room}
use firebird_bbs.Station.Session.{command_execute}
use firebird_bbs.Station.Server.{accept_user, set_ibuf}
use firebird_bbs.Station.Occupancy.{WellFormed}
use firebird_bbs.Station.Invariant.Runs.{
  Step, connects, here, next, start, Reach-WellFormed, receives,
}
use firebird_bbs.Station.Rights.{Entered, Entitled, enter_room_old, enter_room-Entitled}
use firebird_bbs.Station.Server.{cut_nul, serve}
use firebird_bbs.Station.Stream.{ended, serve-line}
use firebird_bbs.Station.Names.{delivered, send_to_room_reaches, ShortNames}

abbrev no_flags : Flags
no_flags = record {
  sysop = false;
  chat_cloak = false;
  chat_room = false;
  deny_post = false;
  other = 0;
}

-- Alice in the main room, and Bob, who rules the locked room 3 and has invited Alice.
abbrev alice : ChatUser
unfolding blank_user
alice = record blank_user { sockfd = some 4; utent = some 1; room = some 0; chatid = codes "alice" }

abbrev bob : ChatUser
unfolding blank_user
bob = record blank_user {
  sockfd = some 5;
  utent = some 2;
  room = some 3;
  flags = record no_flags { chat_room = true };
  chatid = codes "bob";
}

abbrev empty_room : ChatRoom
empty_room = record {
  name = [];
  occupants = 0;
  locked = false;
  secret = false;
  invites = λ i. false;
  topic = [];
}

abbrev den : ChatRoom
den = record empty_room { name = codes "Den"; occupants = 1; locked = true; invites = λ i. i == 0 }

abbrev hall_user : ℕ → ChatUser
unfolding blank_user
hall_user zero = alice
hall_user (suc zero) = bob
hall_user (suc (suc i)) = blank_user

abbrev hall_room : ℕ → ChatRoom
hall_room zero = record empty_room { name = codes "main"; occupants = 1 }
hall_room (suc zero) = empty_room
hall_room (suc (suc zero)) = empty_room
hall_room (suc (suc (suc zero))) = den
hall_room (suc (suc (suc (suc r)))) = empty_room

abbrev hall : Station
hall = record { users = hall_user; rooms = hall_room; sent = []; maintopic = []; is_chat1 = true }

-- One caller is connected, and logs in by a packet of one line.
abbrev called : Station
called = accept_user (start [] true) 7 (codes "localhost")

abbrev login : Bytes
login = codes "/! 1 0 bob bob 0"

abbrev greeted : Station
greeted = ended 0 (command_execute (set_ibuf called 0 login) 0 login)

greeted-served : serve called 0 (login ++ 10 ∷ []) ≡ some greeted
unfolding accept_user first_from max_active start set_user update cut_nul blank_user
greeted-served = serve-line called 0 b'/' (codes "! 1 0 bob bob 0") refl

called-connected : connected (called.users 0) ≡ true
unfolding accept_user first_from max_active start set_user update blank_user
called-connected = refl

connects-called : Step (start [] true) called
connects-called = connects (start [] true) 7 (codes "localhost")

Reach-WellFormed_example : WellFormed greeted
Reach-WellFormed_example = Reach-WellFormed [] true (
    next (next here connects-called) (
      receives called 0 (login ++ 10 ∷ []) greeted (unfold max_active in omega arith)
        called-connected greeted-served))

den-Entered : Entered (enter_room hall 0 (codes "den") []) 0 3 false
unfolding roomid_to_indx first_from max_room same_name bytes_eq to_lower hall_user
den-Entered = enter_room_old hall 0 3 (codes "den") [] refl refl

enter_room-Entitled_example : Entitled hall 0 3
unfolding hall_user alice
enter_room-Entitled_example =
    enter_room-Entitled hall 0 3 (λ e. ground arith) (codes "den") [] den-Entered.in_room_k

send_to_room_reaches_example :
    (send_to_room hall (some 0) no_topic ≡ record hall { sent = delivered hall 0 no_topic ∷ [] })
    × ((k : ℕ)
        → (in_bytes (delivered hall 0 no_topic).recipients k ≡ true)
          ↔ ((k < max_room) × (connected (hall_user k) ≡ true) × (in_room 0 (hall_user k) ≡ true)))
send_to_room_reaches_example = send_to_room_reaches hall 0 no_topic

hall-ShortNames : ShortNames hall
hall-ShortNames zero = omega arith
hall-ShortNames (suc zero) = omega arith
hall-ShortNames (suc (suc zero)) = omega arith
hall-ShortNames (suc (suc (suc zero))) = omega arith
hall-ShortNames (suc (suc (suc (suc r)))) = omega arith
