-- ===== src/Station/Invariant/Runs.antt =====
-- Whole runs of bbssrc/src/station.c: connections, packets and lost connections in any order.
use firebird_bbs.Base.Text.{Bytes, codes, same_name}
use firebird_bbs.Base.Maps.{update, first_from, first_from_sound, count_below}
use firebird_bbs.Base.{
  ℕ, zero, suc, ◌<◌, ◌≡◌, refl, sym, ◌∙◌, ap, Bool, true, false, Option, none, some, [], ◌∷◌, ◌==◌,
  if◌then◌else◌, arith, if_elim, Option-cases, inl, inr, not, ◌&&◌, subst, ltb, length, ◌++◌,
}
use firebird_bbs.Station.{
  Station, ChatUser, ChatRoom, exit_lostconn, max_active, max_room, connected, set_user,
  send_to_unum, chatid_to_indx, is_valid_chatid, has_bit,
}
use firebird_bbs.Station.Occupancy.{Keeps, WellFormed, Keeps-WellFormed, set_user-Keeps}
use firebird_bbs.Station.Moves.{exit_room-WellFormed, exit_room_self, leave_room, logout_user-Keeps}
use firebird_bbs.Station.Rooms.{logout_user, blank_user, mainroom}
use firebird_bbs.Station.Session.{
  Login, parse_login, utent_used, admit_user, check_host, login_user, finish, login_line, room_line,
  command_execute,
}
use firebird_bbs.Station.Server.{
  accept_user, set_ibuf, cut_nul, after_line, receive_loop, process_chat_command, serve,
}
use firebird_bbs.Station.Invariant.Lines.{command_execute-WellFormed}

-- A refused line leaves its sender in no room.
abbrev Nowhere : ℕ → Station × Bool → Type 0
Nowhere unum r = r.1 ≡ false → (r.0.users unum).room ≡ none

module _ (s : Station) (unum : ℕ) (e : (s.users unum).room ≡ none) where
  check_host-Nowhere : (d : Login) → Nowhere unum (check_host s unum d)
  unfolding check_host admit_user send_to_unum
  check_host-Nowhere d =
      if_elim (Nowhere unum) (same_name (codes "localhost") (s.users unum).host) (λ h. cc)
        (if_elim (Nowhere unum) s.is_chat1
          (if_elim (Nowhere unum) (not (has_bit 4 d.level) && same_name d.chatid (codes "guest"))
            (λ h. e) (λ h. cc))
          (λ h. e))

  login_user-Nowhere : (m : Bytes) → Nowhere unum (login_user s unum m)
  unfolding login_user send_to_unum
  login_user-Nowhere m =
      let d = parse_login m in
      if_elim (Nowhere unum) (utent_used s d.utent) (λ h. e)
        (if_elim (Nowhere unum) (is_valid_chatid d.chatid)
          (elim (chatid_to_indx s 0 d.chatid)
            as (λ o. Nowhere unum (elim o [
              | none ↦ check_host s unum d
              | some other ↦ (send_to_unum s unum firebird_bbs.Station.login_exists, true)
            ])) [ none ↦ check_host-Nowhere d | some other ↦ λ h. e ])
          (λ h. e))

  login_line-Nowhere : (line : Bytes) → Nowhere unum (login_line s unum line)
  unfolding login_line
  login_line-Nowhere [] h = e
  login_line-Nowhere (a ∷ []) h = e
  login_line-Nowhere (a ∷ b ∷ m) h =
      if_elim (Nowhere unum) (a == b'/' && b == b'!') (login_user-Nowhere m) (λ k. e) h

finish-true :
    (s : Station) (unum : ℕ) (word : Bytes) (o : Option Station) → (finish s unum word o).1 ≡ true
unfolding finish
finish-true s unum word none = refl
finish-true s unum word (some t) = refl

room_line-true : (s : Station) (unum : ℕ) (line : Bytes) → (room_line s unum line).1 ≡ true
unfolding room_line
room_line-true s unum [] = refl
room_line-true s unum (x ∷ line) =
    if_elim (λ (r : Station × Bool). r.1 ≡ true) (x == b'/') (finish-true s unum _ _) refl

command_execute-Nowhere :
    (s : Station) (unum : ℕ) (line : Bytes) → Nowhere unum (command_execute s unum line)
unfolding command_execute
command_execute-Nowhere s unum line = elim (Option-cases (s.users unum).room) [
  | inl e ↦ rw (e, command_execute) (login_line-Nowhere s unum e line)
  | inr (r, e) ↦ rw (e, command_execute) (λ h. absurd (ground (arith, room_line-true s unum line)))
]

-- What the server does with one event: a connection, or what `recv` gives for an entry that is
-- connected, which is empty where the connection is lost. What follows a line in its packet is not in
-- the model, so here no packet goes on behind a line that is not refused.
pub data Step : Station → Station → Type 0 where
  connects : (s : Station) (fd : ℕ) (host : Bytes) → Step s (accept_user s fd host)
  receives :
      (s : Station) (unum : ℕ) (input : Bytes) (t : Station)
      → unum < max_active
      → connected (s.users unum) ≡ true
      → serve s unum input ≡ some t
      → Step s t

pub data Reach (s : Station) : Station → Type 0 where
  here : Reach s s
  next : {t u : Station} → Reach s t → Step t u → Reach s u

accept-WellFormed :
    (s : Station) (fd : ℕ) (host : Bytes) → WellFormed s → WellFormed (accept_user s fd host)
unfolding accept_user
accept-WellFormed s fd host w =
    elim (Option-cases (first_from max_active 0 (λ i. not (connected (s.users i))))) [
      | inl e ↦ rw (e, accept_user) w
      | inr (k, e) ↦
          let f = first_from_sound max_active 0 _ k e in
          rw (e, accept_user) (Keeps-WellFormed (set_user-Keeps s k _ (λ r. ground arith)) w)
    ]

-- The arrays fit, and an entry that is to be logged out is in no room.
abbrev Left : ℕ → Station × Bool → Type 0
Left unum r = WellFormed r.0 × Nowhere unum r

abbrev LeftSome : ℕ → Option (Station × Bool) → Type 0
LeftSome unum o = (r : Station × Bool) → o ≡ some r → Left unum r

set_ibuf-Keeps : (s : Station) (unum : ℕ) (b : Bytes) → Keeps s (set_ibuf s unum b)
unfolding set_ibuf
set_ibuf-Keeps s unum b = set_user-Keeps s unum _ (λ r. refl)

set_ibuf-connected :
    (s : Station) (unum : ℕ) (b : Bytes)
    → connected ((set_ibuf s unum b).users unum) ≡ connected (s.users unum)
unfolding set_ibuf set_user update
set_ibuf-connected s unum b = ground arith

same_some : {A : Type 0} {a b : A} → some a ≡ some b → a ≡ b
same_some {a = a} e = ap (λ o. elim o [ none ↦ a | some x ↦ x ]) e

some-LeftSome : (unum : ℕ) (r : Station × Bool) → Left unum r → LeftSome unum (some r)
some-LeftSome unum r l q e = subst (Left unum) (same_some e) l

after_line-LeftSome :
    (unum : ℕ) (input : Bytes) (r : Station × Bool)
    → Left unum r
    → LeftSome unum (after_line unum input r)
unfolding after_line
after_line-LeftSome unum input (s, false) l = some-LeftSome unum (s, false) l
after_line-LeftSome unum [] (s, true) (w, away) =
    some-LeftSome unum (set_ibuf s unum [], true)
      (Keeps-WellFormed (set_ibuf-Keeps s unum []) w, λ h. cc)
after_line-LeftSome unum (c ∷ input) (s, true) l = λ q e. absurd cc

receive_loop-LeftSome :
    (s : Station) (unum : ℕ) (b input : Bytes)
    → unum < max_active
    → connected (s.users unum) ≡ true
    → WellFormed s
    → LeftSome unum (receive_loop s unum b input)
unfolding receive_loop
receive_loop-LeftSome s unum b [] l c w =
    some-LeftSome unum (set_ibuf s unum b, true)
      (Keeps-WellFormed (set_ibuf-Keeps s unum b) w, λ h. cc)
receive_loop-LeftSome s unum b (x ∷ input) l c w =
    let s0 = set_ibuf s unum b in
    let w0 = Keeps-WellFormed (set_ibuf-Keeps s unum b) w in
    let same = receive_loop-LeftSome s unum b input l c w in
    let longer = receive_loop-LeftSome s unum (b ++ x ∷ []) input l c w in
    let ended =
      command_execute-WellFormed s0 unum l (set_ibuf-connected s unum b ∙ c) w0 (cut_nul b) in
    let next =
      after_line-LeftSome unum input (command_execute s0 unum (cut_nul b))
        (ended, command_execute-Nowhere s0 unum (cut_nul b)) in
    if_elim (LeftSome unum) (x == 13) same (
      if_elim (LeftSome unum) (x == 10) next
        (if_elim (LeftSome unum) (ltb (length b) 127) longer same))

process_chat_command-LeftSome :
    (s : Station) (unum : ℕ) (input : Bytes)
    → unum < max_active
    → connected (s.users unum) ≡ true
    → WellFormed s
    → LeftSome unum (process_chat_command s unum input)
unfolding process_chat_command
process_chat_command-LeftSome s unum [] l c w = some-LeftSome unum _ (
  exit_room-WellFormed s unum exit_lostconn [] l c w,
  λ h.
      ap (λ (u : ChatUser). u.room) (exit_room_self s unum exit_lostconn [])
      ∙ leave_room (s.users unum),
)
process_chat_command-LeftSome s unum (x ∷ input) l c w =
    receive_loop-LeftSome s unum (s.users unum).ibuf (x ∷ input) l c w

ended-WellFormed :
    (unum : ℕ) (r : Station × Bool)
    → Left unum r
    → WellFormed (if r.1 then r.0 else logout_user r.0 unum)
ended-WellFormed unum (s, true) (w, away) = w
ended-WellFormed unum (s, false) (w, away) =
    Keeps-WellFormed (logout_user-Keeps s unum (away refl)) w

serve-WellFormed :
    (s : Station) (unum : ℕ) (input : Bytes) (t : Station)
    → unum < max_active
    → connected (s.users unum) ≡ true
    → serve s unum input ≡ some t
    → WellFormed s
    → WellFormed t
unfolding serve
serve-WellFormed s unum input t l c e w = elim (Option-cases (process_chat_command s unum input)) [
  | inl f ↦ absurd (let g = (rw f at e) in cc)
  | inr (r, f) ↦
      let left = process_chat_command-LeftSome s unum input l c w r f in
      subst WellFormed (same_some (rw f at e)) (ended-WellFormed unum r left)
]

Step-WellFormed : {s t : Station} → Step s t → WellFormed s → WellFormed t
Step-WellFormed (connects s fd host) w = accept-WellFormed s fd host w
Step-WellFormed (receives s unum input t l c e) w = serve-WellFormed s unum input t l c e w

-- The state that `main` starts from: static arrays, all zero, with -1 in `sockfd` and `utent`.
unfoldable pub start : Bytes → Bool → Station
unfolding blank_user
start topic chat1 = record {
  users = λ i. record blank_user { room = some 0 };
  rooms = λ r. record {
    name = if r == 0 then mainroom else [];
    occupants = 0;
    locked = false;
    secret = false;
    invites = λ i. false;
    topic = if r == 0 then topic else [];
  };
  sent = [];
  maintopic = topic;
  is_chat1 = chat1;
}

count_false : (n : ℕ) → count_below n (λ i. false) ≡ 0
unfolding count_below
count_false zero = refl
count_false (suc n) = omega (arith, count_false n)

pub start-WellFormed : (topic : Bytes) (chat1 : Bool) → WellFormed (start topic chat1)
unfolding start blank_user
start-WellFormed topic chat1 = record {
  counted = λ r l. sym (count_false max_active);
  placed = λ i r l h. cc;
}

-- In every state that the station reaches from its start by connections, lost connections and packets
-- in any order, as long as no packet goes on behind a line that `command_execute` has not refused: each
-- room's `occupants` is the number of connected users in it, and every connected user's room is an
-- index of the array.
pub Reach-WellFormed :
    (topic : Bytes) (chat1 : Bool) {t : Station} → Reach (start topic chat1) t → WellFormed t
Reach-WellFormed topic chat1 here = start-WellFormed topic chat1
Reach-WellFormed topic chat1 (next r st) = Step-WellFormed st (Reach-WellFormed topic chat1 r)
