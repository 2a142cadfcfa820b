-- ===== src/Station/Talk.antt =====
-- What users say: messages to the room, to one user and to all, and the social commands, of
-- bbssrc/src/station.c. The texts that the tables give for a
-- verb are its constructor of `Message`.
use firebird_bbs.Base.Text.{Bytes, codes, bytes_eq, to_lower}
use firebird_bbs.Base.{
  ℕ, zero, suc, ◌+◌, Bool, false, ◌&&◌, ◌||◌, Option, none, some, List, [], ◌∷◌, ◌==◌, map,
  if◌then◌else◌, take, length,
}
use firebird_bbs.Station.{
  Station, no_such_id, ambiguous, nothing_to_say, note_to, note_from, said, acted, no_broadcast,
  empty_broadcast, announcement, exit_logout, party_text, speak_text, condition_text, max_active,
  sysop, cloak_right, connected, send_to_room, send_to_unum,
}
use firebird_bbs.Station.Commands.{nextword}
use firebird_bbs.Station.Rooms.{exit_room}

-- The results of `fuzzy_chatid_to_indx`: -1, -2 and an index.
pub data Who : Type 0 where
  nobody several : Who
  one : ℕ → Who

-- `!strncasecmp(word, name, len)` where `len` is the length of `word`.
unfoldable pub begins : Bytes → Bytes → Bool
begins word name = bytes_eq (map to_lower word) (take (length word) (map to_lower name))

-- The loop over the users; the last argument is `indx`.
unfoldable pub fuzzy_loop : Station → Bytes → ℕ → ℕ → Option ℕ → Who
fuzzy_loop s word zero i indx = elim indx [ none ↦ nobody | some k ↦ one k ]
fuzzy_loop s word (suc n) i indx =
    let u = s.users i in
    let skip = fuzzy_loop s word n (i + 1) indx in
    let first = fuzzy_loop s word n (i + 1) (some i) in
    if connected u && (begins word u.chatid || begins word u.userid)
    then if length word == length u.chatid || length word == length u.userid
      then one i
      else (elim indx [ none ↦ first | some k ↦ several ])
    else skip

-- With no user found the source reads `users[-1].cloak`; either way the result is -1.
unfoldable pub fuzzy_chatid_to_indx : Station → ℕ → Bytes → Who
fuzzy_chatid_to_indx s unum word = elim (fuzzy_loop s word max_active 0 none) [
  | nobody ↦ nobody
  | several ↦ several
  | one k ↦ if (s.users k).cloak == 0 || cloak_right (s.users unum) then one k else nobody
]

unfoldable pub pass_note : Station → ℕ → ℕ → Bytes → Station
pass_note s unum recunum [] = send_to_unum s unum nothing_to_say
pass_note s unum recunum (c ∷ msg) =
    let s1 = send_to_unum s recunum (note_from (s.users unum).chatid (take 80 (c ∷ msg))) in
    send_to_unum s1 unum (note_to (s.users recunum).chatid (take 80 (c ∷ msg)))

unfoldable pub chat_private : Station → ℕ → Bytes → Station
chat_private s unum msg =
    let (recipient, rest) = nextword msg in
    elim (fuzzy_chatid_to_indx s unum recipient) [
      | nobody ↦ send_to_unum s unum (no_such_id recipient)
      | several ↦ send_to_unum s unum ambiguous
      | one recunum ↦ pass_note s unum recunum rest
    ]

-- `put_chatid` sets the speaker's name before the text.
unfoldable pub chat_allmsg : Station → ℕ → Bytes → Station
chat_allmsg s unum [] = s
chat_allmsg s unum (c ∷ msg) =
    send_to_room s (s.users unum).room (said (s.users unum).chatid (c ∷ msg))

unfoldable pub chat_act : Station → ℕ → Bytes → Station
chat_act s unum [] = s
chat_act s unum (c ∷ msg) =
    send_to_room s (s.users unum).room (acted (s.users unum).chatid (c ∷ msg))

unfoldable pub broadcast_text : Station → ℕ → Bytes → Station
broadcast_text s unum [] = send_to_unum s unum empty_broadcast
broadcast_text s unum (c ∷ msg) =
    let s1 = send_to_room s none (announcement (s.users unum).chatid []) in
    send_to_room s1 none (announcement [] (c ∷ msg))

unfoldable pub chat_broadcast : Station → ℕ → Bytes → Station
chat_broadcast s unum msg =
    if sysop (s.users unum) then broadcast_text s unum msg else send_to_unum s unum no_broadcast

unfoldable pub chat_goodbye : Station → ℕ → Bytes → Station
chat_goodbye s unum msg = exit_room s unum exit_logout msg

-- The verbs of `party_data`.
abbrev pub party_verbs : List Bytes
party_verbs =
    codes "bearhug"
    ∷ codes "bless"
    ∷ codes "bow"
    ∷ codes "caress"
    ∷ codes "cringe"
    ∷ codes "cry"
    ∷ codes "comfort"
    ∷ codes "clap"
    ∷ codes "dance"
    ∷ codes "dogleg"
    ∷ codes "drivel"
    ∷ codes "farewell"
    ∷ codes "giggle"
    ∷ codes "grin"
    ∷ codes "growl"
    ∷ codes "hand"
    ∷ codes "hug"
    ∷ codes "kick"
    ∷ codes "kiss"
    ∷ codes "laugh"
    ∷ codes "nod"
    ∷ codes "nudge"
    ∷ codes "pad"
    ∷ codes "pinch"
    ∷ codes "punch"
    ∷ codes "shrug"
    ∷ codes "sigh"
    ∷ codes "slap"
    ∷ codes "smooch"
    ∷ codes "snicker"
    ∷ codes "sniff"
    ∷ codes "spank"
    ∷ codes "squeeze"
    ∷ codes "thank"
    ∷ codes "tickle"
    ∷ codes "wave"
    ∷ codes "welcome"
    ∷ codes "wink"
    ∷ codes "zap"
    ∷ []

-- The verbs of `speak_data`.
abbrev pub speak_verbs : List Bytes
speak_verbs =
    codes "ask"
    ∷ codes "chant"
    ∷ codes "cheer"
    ∷ codes "chuckle"
    ∷ codes "curse"
    ∷ codes "demand"
    ∷ codes "frown"
    ∷ codes "groan"
    ∷ codes "grumble"
    ∷ codes "hum"
    ∷ codes "moan"
    ∷ codes "notice"
    ∷ codes "order"
    ∷ codes "ponder"
    ∷ codes "pout"
    ∷ codes "pray"
    ∷ codes "request"
    ∷ codes "shout"
    ∷ codes "sing"
    ∷ codes "smile"
    ∷ codes "smirk"
    ∷ codes "swear"
    ∷ codes "tease"
    ∷ codes "whimper"
    ∷ codes "yawn"
    ∷ codes "yell"
    ∷ []

-- The verbs of `condition_data`.
abbrev pub condition_verbs : List Bytes
condition_verbs =
    codes "applaud"
    ∷ codes "blush"
    ∷ codes "cough"
    ∷ codes "happy"
    ∷ codes "luck"
    ∷ codes "puke"
    ∷ codes "shake"
    ∷ codes "sleep"
    ∷ codes "so"
    ∷ codes "strut"
    ∷ codes "tongue"
    ∷ codes "think"
    ∷ []

-- `!strcmp(cmd, data[i].verb)` for some row.
unfoldable pub listed : List Bytes → Bytes → Bool
listed [] cmd = false
listed (v ∷ vs) cmd = bytes_eq cmd v || listed vs cmd

unfoldable pub party_with : Station → ℕ → Bytes → Bytes → Station
party_with s unum cmd [] =
    send_to_room s (s.users unum).room (party_text (s.users unum).chatid cmd none)
party_with s unum cmd (c ∷ party) = elim (fuzzy_chatid_to_indx s unum (c ∷ party)) [
  | nobody ↦ send_to_unum s unum (no_such_id (c ∷ party))
  | several ↦ send_to_unum s unum ambiguous
  | one k ↦
      send_to_room s (s.users unum).room
        (party_text (s.users unum).chatid cmd (some (s.users k).chatid))
]

-- `none`: the verb is not in the table.
unfoldable pub party_action : Station → ℕ → Bytes → Bytes → Option Station
party_action s unum cmd party =
    if listed party_verbs cmd then some (party_with s unum cmd party) else none

unfoldable pub speak_action : Station → ℕ → Bytes → Bytes → Option Station
speak_action s unum cmd msg =
    if listed speak_verbs cmd
    then some (send_to_room s (s.users unum).room (speak_text (s.users unum).chatid cmd msg))
    else none

unfoldable pub condition_action : Station → ℕ → Bytes → Option Station
condition_action s unum cmd =
    if listed condition_verbs cmd
    then some (send_to_room s (s.users unum).room (condition_text (s.users unum).chatid cmd))
    else none
