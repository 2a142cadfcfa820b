-- ===== src/Station.antt =====
-- bbssrc/src/station.c: the chat station. Its arrays `users` and `rooms` are maps from indices, an
-- index or descriptor of -1 is `none`, and what is sent is appended to a log of deliveries. A text
-- for the terminal is a constructor of `Message` with the values that the format string takes; every
-- descriptor is taken to be ready for writing. `num_conns` is written and never read, and is left
-- out. Flags keep the bits that the station tests by name, and all others in `other`.
pub mod Rooms
pub mod Commands
pub mod Talk
pub mod Listing
pub mod Session
pub mod Server
pub mod Occupancy
pub mod Moves
pub mod Invariant
pub mod Rights
pub mod Names
pub mod Stream
pub mod Tests
use firebird_bbs.Base.Text.{Bytes, codes, same_name, in_bytes}
use firebird_bbs.Base.Maps.{update, first_from}
use firebird_bbs.Base.{
  ℕ, zero, suc, ◌+◌, ◌-◌, ◌*◌, ◌/◌, ◌%◌, ◌^◌, Bool, true, false, not, ◌&&◌, ◌||◌, Option, none,
  some, List, [], ◌∷◌, ◌++◌, ltb, ◌==◌, if◌then◌else◌, take,
}

-- MAXACTIVE, set by bbssrc/configure.in (256 unless the administrator says otherwise).
unfoldable pub max_active : ℕ
max_active = 256

-- `#define MAXROOM 32` of bbssrc/include/chat.h.in.
unfoldable pub max_room : ℕ
max_room = 32

-- `#define CHAT_IDLEN 9` and `#define IDLEN 12`.
abbrev pub chat_idlen : ℕ
chat_idlen = 9

abbrev pub idlen : ℕ
idlen = 12

-- The `flags` of a user: PERM_SYSOP, PERM_CHATCLOAK, PERM_CHATROOM (which is PERM_CHAT) and
-- PERM_DENYPOST, and the value of all other bits.
pub record Flags : Type 0 where
  pub sysop : Bool
  pub chat_cloak : Bool
  pub chat_room : Bool
  pub deny_post : Bool
  pub other : ℕ

abbrev pub has_bit : ℕ → ℕ → Bool
has_bit k n = n / 2 ^ k % 2 == 1

-- The flags that a level stands for.
unfoldable pub of_level : ℕ → Flags
of_level n = record {
  sysop = has_bit 14 n;
  chat_cloak = has_bit 12 n;
  chat_room = has_bit 1 n;
  deny_post = has_bit 5 n;
  other =
      n
      - (n / 2 ^ 14 % 2 * 2 ^ 14 + n / 2 ^ 12 % 2 * 2 ^ 12 + n / 2 % 2 * 2 + n / 2 ^ 5 % 2 * 2 ^ 5);
}

pub record ChatUser : Type 0 where
  pub sockfd : Option ℕ
  pub utent : Option ℕ
  pub room : Option ℕ
  pub flags : Flags
  pub cloak : ℕ
  pub userid : Bytes
  pub chatid : Bytes
  pub ibuf : Bytes
  pub host : Bytes

-- `flags` of a room holds ROOM_LOCKED and ROOM_SECRET; `invites` is set to 0 and 1 only.
pub record ChatRoom : Type 0 where
  pub name : Bytes
  pub occupants : ℕ
  pub locked : Bool
  pub secret : Bool
  pub invites : ℕ → Bool
  pub topic : Bytes

-- EXIT_LOGOUT, EXIT_LOSTCONN and EXIT_KICK.
pub data Disp : Type 0 where
  exit_logout exit_lostconn exit_kick : Disp

pub data Message : Type 0 where
  left : Disp → Bytes → Bytes → Message
  not_op no_topic rooms_full no_new_rooms room_is_locked room_help bad_name same_name_used : Message
  no_such_id not_here entered_room topic_line new_nick : Bytes → Message
  topic_changed entered renamed said acted : Bytes → Bytes → Message
  mode_unknown : ℕ → Message
  mode_changed : Bytes → Bool → Bool → Message
  note_to note_from : Bytes → Bytes → Message
  ambiguous nothing_to_say guests_stay which_room already_op no_broadcast empty_broadcast : Message
  cloak_changed : Bytes → Bool → Message
  coming invited_to new_op : Bytes → Bytes → Message
  announcement : Bytes → Bytes → Message
  login_ok login_exists login_invalid login_bogus : Message
  counts : ℕ → ℕ → ℕ → Message
  unknown_command : Bytes → Message
  party_text : Bytes → Bytes → Option Bytes → Message
  speak_text : Bytes → Bytes → Bytes → Message
  condition_text : Bytes → Bytes → Message
  no_rooms_for_guests room_heading user_heading verb_help secret_room : Message
  room_row : Bytes → ℕ → Bytes → Bool → Bool → Message
  user_row : ℕ → Message
  user_cells : List ℕ → Message
  no_such_room : Bytes → Message

-- One message and the indices of the users to whose descriptors it goes.
pub record Delivery : Type 0 where
  pub recipients : List ℕ
  pub message : Message

pub record Station : Type 0 where
  pub users : ℕ → ChatUser
  pub rooms : ℕ → ChatRoom
  pub sent : List Delivery
  pub maintopic : Bytes
  pub is_chat1 : Bool

-- `RESTRICTED(u)`: no flag is set.
abbrev pub restricted : ChatUser → Bool
restricted u =
    not (u.flags.sysop || u.flags.chat_cloak || u.flags.chat_room || u.flags.deny_post)
    && u.flags.other == 0

abbrev pub sysop : ChatUser → Bool
sysop u = u.flags.sysop

abbrev pub cloak_right : ChatUser → Bool
cloak_right u = u.flags.chat_cloak

abbrev pub room_op : ChatUser → Bool
room_op u = u.flags.chat_room

abbrev pub outsider : ChatUser → Bool
outsider u = u.flags.deny_post

-- `users[i].sockfd != -1`
abbrev pub connected : ChatUser → Bool
connected u = elim u.sockfd [ none ↦ false | some fd ↦ true ]

-- `users[i].room == room`
abbrev pub in_room : ℕ → ChatUser → Bool
in_room r u = elim u.room [ none ↦ false | some k ↦ k == r ]

unfoldable pub set_user : Station → ℕ → ChatUser → Station
set_user s i u = record s { users = update s.users i u }

unfoldable pub set_room : Station → ℕ → ChatRoom → Station
set_room s r v = record s { rooms = update s.rooms r v }

-- `strchr(BADCIDCHARS, c)`
abbrev bad_cid_chars : Bytes
bad_cid_chars = codes " *:/"

-- The loop of `is_valid_chatid`, over at most CHAT_IDLEN characters.
unfoldable pub none_bad : Bytes → Bool
none_bad [] = true
none_bad (c ∷ s) = not (in_bytes bad_cid_chars c) && none_bad s

unfoldable pub is_valid_chatid : Bytes → Bool
is_valid_chatid [] = false
is_valid_chatid (c ∷ s) = none_bad (take chat_idlen (c ∷ s))

unfoldable pub chatid_to_indx : Station → ℕ → Bytes → Option ℕ
chatid_to_indx s unum chatid = first_from max_active 0 (λ i.
    connected (s.users i)
    && same_name chatid (s.users i).chatid
    && ((s.users i).cloak == 0 || not (cloak_right (s.users unum))))

unfoldable pub roomid_to_indx : Station → Bytes → Option ℕ
roomid_to_indx s roomid =
    first_from max_room 0
      (λ i. (i == 0 || ltb 0 (s.rooms i).occupants) && same_name roomid (s.rooms i).name)

-- The indices below `n`, from `i` on, that pass the test.
unfoldable pub indices : ℕ → ℕ → (ℕ → Bool) → List ℕ
indices zero i p = []
indices (suc n) i p = if p i then i ∷ indices n (i + 1) p else indices n (i + 1) p

-- `send_to_room` looks at the first MAXROOM users; `none` is ROOM_ALL.
unfoldable pub send_to_room : Station → Option ℕ → Message → Station
send_to_room s room m = record s {
  sent =
      s.sent
      ++ record {
        recipients = indices max_room 0 (λ i.
            connected (s.users i) && (elim room [ none ↦ true | some r ↦ in_room r (s.users i) ]));
        message = m;
      }
        ∷ [];
}

unfoldable pub send_to_unum : Station → ℕ → Message → Station
send_to_unum s unum m = record s {
  sent = s.sent ++ record { recipients = unum ∷ []; message = m } ∷ [];
}
