-- ===== src/Station/Invariant/Lines.antt =====
-- Logging in and the command line of bbssrc/src/station.c.
use firebird_bbs.Base.Text.{Bytes, bytes_eq, same_name, codes}
use firebird_bbs.Base.Maps.{update_self}
use firebird_bbs.Base.{
  ℕ, ◌-◌, ◌<◌, ◌≡◌, refl, ◌∙◌, ap, Bool, true, Option, none, some, [], ◌∷◌, ◌==◌, arith, if_elim,
  Bool-cases, Option-cases, ◌⊎◌, inl, inr, not, ◌&&◌, take,
}
use firebird_bbs.Station.{
  Station, Flags, exit_logout, verb_help, login_ok, max_active, connected, set_user, send_to_unum,
  chatid_to_indx, is_valid_chatid, has_bit, chat_idlen,
}
use firebird_bbs.Station.Occupancy.{
  WellFormed, Keeps, Keeps-trans, Keeps-WellFormed, set_user-Keeps, send_to_unum-Keeps,
}
use firebird_bbs.Station.Moves.{
  exit_room-WellFormed, enter_room-WellFormed, print_user_counts-Keeps,
}
use firebird_bbs.Station.Rooms.{mainroom, print_user_counts}
use firebird_bbs.Station.Commands.{nextword}
use firebird_bbs.Station.Talk.{chat_goodbye, party_action, speak_action, condition_action}
use firebird_bbs.Station.Session.{
  Login, parse_login, utent_used, admit_user, check_host, login_user, ChatCmd, act, bye, flags,
  invite, join, kick, msg, nick, operator, rooms, whoin, wall, cloak, who, list, topic,
  find_command, chatcmdlist, run_command, or_else, social, table_command, slash_command, clear_ibuf,
  finish, login_line, room_line, command_execute,
}
use firebird_bbs.Station.Invariant.Quiet.{
  chat_topic-Keeps, chat_setroom-Keeps, chat_nick-Keeps, chat_cloak-Keeps, chat_makeop-Keeps,
  chat_invite-Keeps,
}
use firebird_bbs.Station.Invariant.Spoken.{
  SameState-Keeps, chat_private-SameState, chat_allmsg-SameState, chat_act-SameState,
  chat_broadcast-SameState, chat_list_rooms-SameState, chat_list_by_room-SameState,
  chat_list_users-SameState, chat_map_chatids-SameState, party_action-SameState,
  speak_action-SameState, condition_action-SameState,
}
use firebird_bbs.Station.Invariant.Steps.{told, chat_join-WellFormed, chat_kick-WellFormed}

admit_user-WellFormed :
    (s : Station) (unum : ℕ) (d : Login) (f : Flags) (k : ℕ)
    → unum < max_active
    → connected (s.users unum) ≡ true
    → WellFormed s
    → WellFormed (admit_user s unum d f k).0
unfolding admit_user print_user_counts send_to_unum set_user
admit_user-WellFormed s unum d f k l c w =
    let u = record (s.users unum) {
      utent = some d.utent;
      flags = f;
      cloak = k;
      userid = d.userid;
      chatid = take (chat_idlen - 1) d.chatid;
    } in
    let s1 = send_to_unum (set_user s unum u) unum login_ok in
    let k1 = set_user-Keeps s unum u (λ r. refl) in
    enter_room-WellFormed (print_user_counts s1 unum) unum mainroom [] l
      (ap connected (update_self s.users unum u) ∙ c)
      (Keeps-WellFormed
        (Keeps-trans k1
          (Keeps-trans (send_to_unum-Keeps _ unum login_ok) (print_user_counts-Keeps s1 unum)))
        w)

check_host-WellFormed :
    (s : Station) (unum : ℕ) (d : Login)
    → unum < max_active
    → connected (s.users unum) ≡ true
    → WellFormed s
    → WellFormed (check_host s unum d).0
unfolding check_host
check_host-WellFormed s unum d l c w =
    if_elim GoesOn (same_name (codes "localhost") (s.users unum).host)
      (admit_user-WellFormed s unum d _ _ l c w)
      (if_elim GoesOn s.is_chat1
        (if_elim GoesOn (not (has_bit 4 d.level) && same_name d.chatid (codes "guest"))
          (told s unum _ w) (admit_user-WellFormed s unum d _ _ l c w))
        (told s unum _ w))
  where
    GoesOn : Station × Bool → Type 0
    GoesOn r = WellFormed r.0

pub login_user-WellFormed :
    (s : Station) (unum : ℕ) (m : Bytes)
    → unum < max_active
    → connected (s.users unum) ≡ true
    → WellFormed s
    → WellFormed (login_user s unum m).0
unfolding login_user
login_user-WellFormed s unum m l c w =
    let d = parse_login m in
    elim (Bool-cases (utent_used s d.utent)) [
      | inl p ↦ rw p (told s unum _ w)
      | inr p ↦ elim (Bool-cases (is_valid_chatid d.chatid)) [
        | inr q ↦ rw (p, q) (told s unum _ w)
        | inl q ↦ elim (Option-cases (chatid_to_indx s 0 d.chatid)) [
          | inl e ↦ rw (p, q, e, login_user) (check_host-WellFormed s unum d l c w)
          | inr (k, e) ↦ rw (p, q, e, login_user) (told s unum _ w)
        ]
      ]
    ]

-- Every command of the table keeps the station well formed.
pub run_command-WellFormed :
    (s : Station) (unum : ℕ) (cmd : ChatCmd) (m : Bytes)
    → unum < max_active
    → connected (s.users unum) ≡ true
    → WellFormed s
    → WellFormed (run_command s unum cmd m)
unfolding run_command chat_goodbye
run_command-WellFormed s unum act m l c w =
    Keeps-WellFormed (SameState-Keeps (chat_act-SameState s unum m)) w
run_command-WellFormed s unum bye m l c w = exit_room-WellFormed s unum exit_logout m l c w
run_command-WellFormed s unum flags m l c w = Keeps-WellFormed (chat_setroom-Keeps s unum m) w
run_command-WellFormed s unum invite m l c w = Keeps-WellFormed (chat_invite-Keeps s unum m) w
run_command-WellFormed s unum join m l c w = chat_join-WellFormed s unum l c w m
run_command-WellFormed s unum kick m l c w = chat_kick-WellFormed s unum m w
run_command-WellFormed s unum msg m l c w =
    Keeps-WellFormed (SameState-Keeps (chat_private-SameState s unum m)) w
run_command-WellFormed s unum nick m l c w = Keeps-WellFormed (chat_nick-Keeps s unum m) w
run_command-WellFormed s unum operator m l c w = Keeps-WellFormed (chat_makeop-Keeps s unum m) w
run_command-WellFormed s unum rooms m l c w =
    Keeps-WellFormed (SameState-Keeps (chat_list_rooms-SameState s unum)) w
run_command-WellFormed s unum whoin m l c w =
    Keeps-WellFormed (SameState-Keeps (chat_list_by_room-SameState s unum m)) w
run_command-WellFormed s unum wall m l c w =
    Keeps-WellFormed (SameState-Keeps (chat_broadcast-SameState s unum m)) w
run_command-WellFormed s unum cloak m l c w = Keeps-WellFormed (chat_cloak-Keeps s unum) w
run_command-WellFormed s unum who m l c w =
    Keeps-WellFormed (SameState-Keeps (chat_map_chatids-SameState s unum)) w
run_command-WellFormed s unum list m l c w =
    Keeps-WellFormed (SameState-Keeps (chat_list_users-SameState s unum m)) w
run_command-WellFormed s unum topic m l c w = Keeps-WellFormed (chat_topic-Keeps s unum m) w

clear_ibuf-WellFormed : (s : Station) (unum : ℕ) → WellFormed s → WellFormed (clear_ibuf s unum)
unfolding clear_ibuf
clear_ibuf-WellFormed s unum w = Keeps-WellFormed (set_user-Keeps s unum _ (λ r. refl)) w

or_else-some :
    (a b : Option Station) (t : Station) → or_else a b ≡ some t → (a ≡ some t) ⊎ (b ≡ some t)
unfolding or_else
or_else-some none b t e = inr e
or_else-some (some x) b t e = inl e

social_verb-Keeps :
    (s t : Station) (unum : ℕ) (verb m : Bytes)
    → or_else
        (party_action s unum verb m)
        (or_else (speak_action s unum verb m) (condition_action s unum verb))
      ≡ some t
    → Keeps s t
social_verb-Keeps s t unum verb m e = elim (or_else-some _ _ t e) [
  | inl p ↦ SameState-Keeps (party_action-SameState s t unum verb m p)
  | inr r ↦ elim (or_else-some _ _ t r) [
    | inl p ↦ SameState-Keeps (speak_action-SameState s t unum verb m p)
    | inr p ↦ SameState-Keeps (condition_action-SameState s t unum verb p)
  ]
]

help-Keeps : (s t : Station) (unum : ℕ) → some (send_to_unum s unum verb_help) ≡ some t → Keeps s t
help-Keeps s t unum e =
    let f : t ≡ send_to_unum s unum verb_help = ground arith in rw f (send_to_unum-Keeps s unum _)

social-Keeps :
    (s t : Station) (unum : ℕ) (verb m : Bytes) → social s unum verb m ≡ some t → Keeps s t
unfolding social
social-Keeps s t unum [] m e = help-Keeps s t unum e
social-Keeps s t unum (x ∷ verb) m e =
    if_elim (λ o. o ≡ some t → Keeps s t) (bytes_eq (x ∷ verb) (codes "help")) (help-Keeps s t unum)
      (social_verb-Keeps s t unum (x ∷ verb) m) e

module _ (s : Station) (unum : ℕ) (l : unum < max_active) (c : connected (s.users unum) ≡ true)
    (w : WellFormed s) where
  abbrev Good : Option Station → Type 0
  Good o = (t : Station) → o ≡ some t → WellFormed t

  table-WellFormed : (word m : Bytes) → Good (table_command s unum word m)
  unfolding table_command
  table-WellFormed word m t e = elim (Option-cases (find_command chatcmdlist word)) [
    | inl n ↦ absurd (ground arith)
    | inr (cmd, f) ↦
        let g : t ≡ run_command s unum cmd m = ground arith in
        rw g (run_command-WellFormed s unum cmd m l c w)
  ]

  slash-WellFormed : (word m : Bytes) → Good (slash_command s unum word m)
  unfolding slash_command
  slash-WellFormed [] m = table-WellFormed [] m
  slash-WellFormed (x ∷ word) m =
      if_elim Good (x == b'/') (λ t e. Keeps-WellFormed (social-Keeps s t unum word m e) w)
        (table-WellFormed (x ∷ word) m)

  finish-WellFormed :
      (word : Bytes) (o : Option Station) → Good o → WellFormed (finish s unum word o).0
  unfolding finish
  finish-WellFormed word none g = clear_ibuf-WellFormed _ unum (told s unum _ w)
  finish-WellFormed word (some t) g = clear_ibuf-WellFormed t unum (g t refl)

  room_line-WellFormed : (line : Bytes) → WellFormed (room_line s unum line).0
  unfolding room_line
  room_line-WellFormed [] = Keeps-WellFormed (SameState-Keeps (chat_allmsg-SameState s unum [])) w
  room_line-WellFormed (x ∷ line) =
      if_elim (λ (r : Station × Bool). WellFormed r.0) (x == b'/')
        (finish-WellFormed (nextword line).0 _
          (slash-WellFormed (nextword line).0 (nextword line).1))
        (Keeps-WellFormed (SameState-Keeps (chat_allmsg-SameState s unum (x ∷ line))) w)

  login_line-WellFormed : (line : Bytes) → WellFormed (login_line s unum line).0
  unfolding login_line
  login_line-WellFormed [] = w
  login_line-WellFormed (a ∷ []) = w
  login_line-WellFormed (a ∷ b ∷ m) =
      if_elim (λ (r : Station × Bool). WellFormed r.0) (a == b'/' && b == b'!')
        (login_user-WellFormed s unum m l c w) w

  -- Every line that a connected user sends, a login, a text or any command, keeps the station well
  -- formed.
  pub command_execute-WellFormed : (line : Bytes) → WellFormed (command_execute s unum line).0
  unfolding command_execute
  command_execute-WellFormed line = elim (Option-cases (s.users unum).room) [
    | inl e ↦ rw (e, command_execute) (login_line-WellFormed line)
    | inr (r, e) ↦ rw (e, command_execute) (room_line-WellFormed line)
  ]
