-- ===== src/Station/Session.antt =====
-- Logging in and the command line of bbssrc/src/station.c.
use firebird_bbs.Base.Text.{Bytes, codes, bytes_eq, same_name, atoi}
use firebird_bbs.Base.Maps.{first_from}
use firebird_bbs.Base.{
  ℕ, ◌-◌, Bool, true, false, not, ◌&&◌, Option, none, some, List, [], ◌∷◌, ◌==◌, if◌then◌else◌,
  take, ◌%◌,
}
use firebird_bbs.Station.{
  Station, Flags, login_ok, login_exists, login_invalid, login_bogus, verb_help, unknown_command,
  max_active, chat_idlen, has_bit, of_level, connected, set_user, is_valid_chatid, chatid_to_indx,
  send_to_unum,
}
use firebird_bbs.Station.Rooms.{mainroom, enter_room, print_user_counts}
use firebird_bbs.Station.Commands.{
  nextword, chat_topic, chat_setroom, chat_nick, chat_cloak, chat_join, chat_kick, chat_makeop,
  chat_invite,
}
use firebird_bbs.Station.Talk.{
  begins, chat_private, chat_allmsg, chat_act, chat_broadcast, chat_goodbye, party_action,
  speak_action, condition_action,
}
use firebird_bbs.Station.Listing.{
  chat_list_rooms, chat_list_by_room, chat_list_users, chat_map_chatids_thisroom,
}

-- The words of a login line.
pub record Login : Type 0 where
  pub utent : ℕ
  pub level : ℕ
  pub userid : Bytes
  pub chatid : Bytes
  pub cloak : ℕ

-- `atoi` of a text that may begin with a sign, as the word of 32 bits that an `int` is.
unfoldable pub signed_atoi : Bytes → ℕ
signed_atoi [] = 0
signed_atoi (c ∷ cs) =
    if c == b'-'
    then (4294967296 - atoi cs % 4294967296) % 4294967296
    else if c == b'+'
    then atoi cs % 4294967296
    else atoi (c ∷ cs) % 4294967296

-- `cloak` is a `char`.
unfoldable pub parse_login : Bytes → Login
parse_login msg =
    let (utentstr, m1) = nextword msg in
    let (level, m2) = nextword m1 in
    let (userid, m3) = nextword m2 in
    let (chatid, m4) = nextword m3 in
    let (cloak, _) = nextword m4 in
    record {
      utent = signed_atoi utentstr;
      level = signed_atoi level;
      userid = userid;
      chatid = chatid;
      cloak = signed_atoi cloak % 256;
    }

-- A connection that has not logged in has -1.
abbrev same_utent : Option ℕ → ℕ → Bool
same_utent none n = n == 4294967295
same_utent (some k) n = k == n

-- Some connection has this utmp entry already.
unfoldable pub utent_used : Station → ℕ → Bool
utent_used s utent =
    elim (first_from max_active 0
      (λ i. connected (s.users i) && same_utent (s.users i).utent utent)) [
        | none ↦ false
        | some i ↦ true
      ]

-- The result is true where the source returns 0, and false where it returns -1. A `userid` that does
-- not fit its array of 14 bytes is written behind it there; here it is kept whole.
unfoldable pub admit_user : Station → ℕ → Login → Flags → ℕ → Station × Bool
admit_user s unum l flags cloak =
    let u = record (s.users unum) {
      utent = some l.utent;
      flags = flags;
      cloak = cloak;
      userid = l.userid;
      chatid = take (chat_idlen - 1) l.chatid;
    } in
    let s1 = print_user_counts (send_to_unum (set_user s unum u) unum login_ok) unum in
    (enter_room s1 unum mainroom [], true)

-- Callers from this host keep their level; others are let into the first station only.
unfoldable pub check_host : Station → ℕ → Login → Station × Bool
check_host s unum l =
    if same_name (codes "localhost") (s.users unum).host
    then admit_user s unum l (record (of_level l.level) { deny_post = false }) l.cloak
    else if s.is_chat1
    then if not (has_bit 4 l.level) && same_name l.chatid (codes "guest")
      then (send_to_unum s unum login_invalid, true)
      else admit_user s unum l
          (record {
            sysop = false;
            chat_cloak = false;
            chat_room = false;
            deny_post = true;
            other = 0;
          })
          0
    else (send_to_unum s unum login_bogus, false)

unfoldable pub login_user : Station → ℕ → Bytes → Station × Bool
login_user s unum msg =
    let l = parse_login msg in
    if utent_used s l.utent
    then (send_to_unum s unum login_bogus, false)
    else if is_valid_chatid l.chatid
    then elim (chatid_to_indx s 0 l.chatid) [
      | none ↦ check_host s unum l
      | some other ↦ (send_to_unum s unum login_exists, true)
    ]
    else (send_to_unum s unum login_invalid, true)

-- `chatcmdlist`
pub data ChatCmd : Type 0 where
  act bye flags invite join kick msg nick operator rooms whoin wall cloak who list topic : ChatCmd

-- A command's word, the command, and whether the word must be written out.
pub record ChatCmdRec : Type 0 where
  pub cmdstr : Bytes
  pub cmd : ChatCmd
  pub exact : Bool

abbrev command_row : Bytes → ChatCmd → Bool → ChatCmdRec
command_row word c exact = record { cmdstr = word; cmd = c; exact = exact }

abbrev pub chatcmdlist : List ChatCmdRec
chatcmdlist =
    command_row (codes "act") act false
    ∷ command_row (codes "bye") bye false
    ∷ command_row (codes "flags") flags false
    ∷ command_row (codes "invite") invite false
    ∷ command_row (codes "join") join false
    ∷ command_row (codes "kick") kick false
    ∷ command_row (codes "msg") msg false
    ∷ command_row (codes "nick") nick false
    ∷ command_row (codes "operator") operator false
    ∷ command_row (codes "rooms") rooms false
    ∷ command_row (codes "whoin") whoin true
    ∷ command_row (codes "wall") wall true
    ∷ command_row (codes "cloak") cloak true
    ∷ command_row (codes "who") who false
    ∷ command_row (codes "list") list false
    ∷ command_row (codes "topic") topic false
    ∷ []

unfoldable pub find_command : List ChatCmdRec → Bytes → Option ChatCmd
find_command [] word = none
find_command (r ∷ rs) word =
    if (if r.exact then same_name word r.cmdstr else begins word r.cmdstr)
    then some r.cmd
    else find_command rs word

unfoldable pub run_command : Station → ℕ → ChatCmd → Bytes → Station
run_command s unum act m = chat_act s unum m
run_command s unum bye m = chat_goodbye s unum m
run_command s unum flags m = chat_setroom s unum m
run_command s unum invite m = chat_invite s unum m
run_command s unum join m = chat_join s unum m
run_command s unum kick m = chat_kick s unum m
run_command s unum msg m = chat_private s unum m
run_command s unum nick m = chat_nick s unum m
run_command s unum operator m = chat_makeop s unum m
run_command s unum rooms m = chat_list_rooms s unum
run_command s unum whoin m = chat_list_by_room s unum m
run_command s unum wall m = chat_broadcast s unum m
run_command s unum cloak m = chat_cloak s unum
run_command s unum who m = chat_map_chatids_thisroom s unum
run_command s unum list m = chat_list_users s unum m
run_command s unum topic m = chat_topic s unum m

unfoldable pub or_else : Option Station → Option Station → Option Station
or_else none o = o
or_else (some s) o = some s

-- A word with a slash of its own: the verb list or a social command.
unfoldable pub social : Station → ℕ → Bytes → Bytes → Option Station
social s unum [] m = some (send_to_unum s unum verb_help)
social s unum (c ∷ verb) m =
    if bytes_eq (c ∷ verb) (codes "help")
    then some (send_to_unum s unum verb_help)
    else or_else (party_action s unum (c ∷ verb) m)
        (or_else (speak_action s unum (c ∷ verb) m) (condition_action s unum (c ∷ verb)))

unfoldable pub table_command : Station → ℕ → Bytes → Bytes → Option Station
table_command s unum word m = elim (find_command chatcmdlist word) [
  | none ↦ none
  | some c ↦ some (run_command s unum c m)
]

unfoldable pub slash_command : Station → ℕ → Bytes → Bytes → Option Station
slash_command s unum [] m = table_command s unum [] m
slash_command s unum (c ∷ word) m =
    if c == b'/' then social s unum word m else table_command s unum (c ∷ word) m

-- `memset(users[unum].ibuf, 0, ...)`
unfoldable pub clear_ibuf : Station → ℕ → Station
clear_ibuf s unum = set_user s unum (record (s.users unum) { ibuf = [] })

unfoldable pub finish : Station → ℕ → Bytes → Option Station → Station × Bool
finish s unum word none = (clear_ibuf (send_to_unum s unum (unknown_command word)) unum, true)
finish s unum word (some s') = (clear_ibuf s' unum, true)

-- A user in no room may only log in, with a line that begins with `/!`.
unfoldable pub login_line : Station → ℕ → Bytes → Station × Bool
login_line s unum (a ∷ b ∷ m) = if a == b'/' && b == b'!' then login_user s unum m else (s, false)
login_line s unum m = (s, false)

unfoldable pub room_line : Station → ℕ → Bytes → Station × Bool
room_line s unum [] = (chat_allmsg s unum [], true)
room_line s unum (c ∷ line) =
    let (word, m) = nextword line in
    if c == b'/'
    then finish s unum word (slash_command s unum word m)
    else (chat_allmsg s unum (c ∷ line), true)

-- The line is what `users[unum].ibuf` holds. False is the result -1.
unfoldable pub command_execute : Station → ℕ → Bytes → Station × Bool
command_execute s unum line = elim (s.users unum).room [
  | none ↦ login_line s unum line
  | some r ↦ room_line s unum line
]
