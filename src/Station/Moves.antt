-- ===== src/Station/Moves.antt =====
-- Entering and leaving rooms, `enter_room` and `exit_room` of bbssrc/src/station.c.
use firebird_bbs.Base.Text.{Bytes}
use firebird_bbs.Base.Maps.{update, update_ne, first_from_sound, count_below_pos}
use firebird_bbs.Base.{
  ℕ, ◌-◌, ◌<◌, ◌≡◌, ◌≢◌, refl, sym, ap, ◌∙◌, inl, inr, Bool, true, false, none, some, ◌==◌, ==_iff,
  if◌then◌else◌, arith, Bool-cases, Option-cases,
}
use firebird_bbs.Station.{
  Station, ChatUser, Disp, exit_logout, max_active, max_room, connected, outsider, set_user,
  set_room, roomid_to_indx, send_to_room, send_to_unum,
}
use firebird_bbs.Station.Rooms.{
  leave_rooms, vacate, exit_room, free_room, new_room, settle, announce, shut_out, move_to,
  open_room, enter_room, blank_user, logout_user, print_user_counts,
}
use firebird_bbs.Station.Occupancy.{
  inside, WellFormed, Keeps, Keeps-WellFormed, set_user-Keeps, set_room-Keeps, send_to_unum-Keeps,
  Moved, Moved-WellFormed,
}

vacate_users :
    (s : Station) (unum old : ℕ) (disp : Disp) (msg : Bytes)
    → (vacate s unum old disp msg).users ≡ s.users
unfolding vacate send_to_room set_room
vacate_users s unum old disp msg = ground arith

vacate_counts :
    (s : Station) (unum old : ℕ) (disp : Disp) (msg : Bytes) (r : ℕ)
    → ((vacate s unum old disp msg).rooms r).occupants
      ≡ (if r == old then (s.rooms old).occupants - 1 else (s.rooms r).occupants)
unfolding vacate send_to_room set_room update
vacate_counts s unum old disp msg r = ground arith

-- Leaving takes the right to rule the room along with the room.
pub exit_room_self :
    (s : Station) (unum : ℕ) (disp : Disp) (msg : Bytes)
    → (exit_room s unum disp msg).users unum ≡ leave_rooms (s.users unum)
unfolding exit_room set_user update
exit_room_self s unum disp msg = ground arith

pub exit_room_others :
    (s : Station) (unum : ℕ) (disp : Disp) (msg : Bytes) (i : ℕ)
    → i ≢ unum
    → (exit_room s unum disp msg).users i ≡ s.users i
unfolding exit_room set_user update
exit_room_others s unum disp msg i ne = elim (Option-cases (s.users unum).room) [
  | inl e ↦ rw (e, exit_room) (update_ne s.users unum _ i ne)
  | inr (old, e) ↦
      rw (e, exit_room)
        (update_ne (vacate s unum old disp msg).users unum _ i ne
          ∙ ap (λ (f : ℕ → ChatUser). f i) (vacate_users s unum old disp msg))
]

exit_room_counts :
    (s : Station) (unum old : ℕ) (disp : Disp) (msg : Bytes) (r : ℕ)
    → (s.users unum).room ≡ some old
    → ((exit_room s unum disp msg).rooms r).occupants
      ≡ (if r == old then (s.rooms old).occupants - 1 else (s.rooms r).occupants)
unfolding exit_room set_user
exit_room_counts s unum old disp msg r e = rw (e, exit_room) (vacate_counts s unum old disp msg r)

inside_leave : (r : ℕ) (u : ChatUser) → inside r (leave_rooms u) ≡ false
unfolding leave_rooms
inside_leave r u = ground arith

exit_room-Moved :
    (s : Station) (unum old : ℕ) (disp : Disp) (msg : Bytes)
    → connected (s.users unum) ≡ true
    → (s.users unum).room ≡ some old
    → 0 < (s.rooms old).occupants
    → Moved s (exit_room s unum disp msg) unum old
exit_room-Moved s unum old disp msg c e pos = record {
  others = λ i r ne. ap (inside r) (exit_room_others s unum disp msg i ne);
  elsewhere = λ r ne.
      ap (inside r) (exit_room_self s unum disp msg) ∙ inside_leave r (s.users unum) ∙ ground arith;
  other_counts = λ r ne. ground (arith, exit_room_counts s unum old disp msg r e);
  count_in =
      let left =
        ap (inside old) (exit_room_self s unum disp msg) ∙ inside_leave old (s.users unum) in
      ground (arith, exit_room_counts s unum old disp msg old e);
}

-- Whoever leaves a well-formed station's room, whatever the reason, leaves the station well formed.
pub exit_room-WellFormed :
    (s : Station) (unum : ℕ) (disp : Disp) (msg : Bytes)
    → unum < max_active
    → connected (s.users unum) ≡ true
    → WellFormed s
    → WellFormed (exit_room s unum disp msg)
exit_room-WellFormed s unum disp msg l c w = elim (Option-cases (s.users unum).room) [
  | inl e ↦
      let keep =
        set_user-Keeps s unum (leave_rooms (s.users unum))
          (λ r. inside_leave r (s.users unum) ∙ ground arith) in
      unfold exit_room in rw (e, exit_room) (Keeps-WellFormed keep w)
  | inr (old, e) ↦
      let here : inside old (s.users unum) ≡ true = ground arith in
      let lo = w.placed unum old l here in
      let pos = count_below_pos max_active unum (λ i. inside old (s.users i)) l here in
      Moved-WellFormed unum old l lo
        (exit_room-Moved s unum old disp msg c e (omega (arith, w.counted old lo))) w
]

pub leave_connected : (u : ChatUser) → connected (leave_rooms u) ≡ connected u
unfolding leave_rooms
leave_connected u = refl

pub leave_room : (u : ChatUser) → (leave_rooms u).room ≡ none
unfolding leave_rooms
leave_room u = refl

settle-Moved :
    (s : Station) (unum k : ℕ) (op : Bool)
    → connected (s.users unum) ≡ true
    → (s.users unum).room ≡ none
    → Moved s (settle s unum k op) unum k
unfolding settle set_user set_room update
settle-Moved s unum k op c e = record {
  others = λ i r ne. ground arith;
  elsewhere = λ r ne. ground arith;
  other_counts = λ r ne. ground arith;
  count_in = ground arith;
}

announce-Keeps : (s : Station) (unum k : ℕ) (room : Bytes) → Keeps s (announce s unum k room)
unfolding announce send_to_room send_to_unum
announce-Keeps s unum k room = record { who = λ i r. ground arith; counts = λ r. ground arith }

move_to-WellFormed :
    (s : Station) (unum k : ℕ) (op : Bool) (room msg : Bytes)
    → unum < max_active
    → k < max_room
    → connected (s.users unum) ≡ true
    → WellFormed s
    → WellFormed (move_to s unum k op room msg)
unfolding move_to
move_to-WellFormed s unum k op room msg l lk c w = elim (Bool-cases (shut_out s unum k)) [
  | inl no_entry ↦ rw no_entry (Keeps-WellFormed (send_to_unum-Keeps s unum _) w)
  | inr entry ↦
      let s1 = exit_room s unum exit_logout msg in
      let u1 = exit_room_self s unum exit_logout msg in
      let w1 = exit_room-WellFormed s unum exit_logout msg l c w in
      let m : Moved s1 (settle s1 unum k op) unum k =
        settle-Moved s1 unum k op (ap connected u1 ∙ leave_connected (s.users unum) ∙ c)
          (ap (λ (u : ChatUser). u.room) u1 ∙ leave_room (s.users unum)) in
      rw entry (
        Keeps-WellFormed (announce-Keeps (settle s1 unum k op) unum k room)
          (Moved-WellFormed unum k l lk m w1))
]

max_room_pos : 0 < max_room
unfolding max_room
max_room_pos = omega arith

roomid_to_indx_bound :
    (s : Station) (room : Bytes) (k : ℕ) → roomid_to_indx s room ≡ some k → k < max_room
unfolding roomid_to_indx
roomid_to_indx_bound s room k e = let b = first_from_sound max_room 0 _ k e in omega arith

-- A free room is a room other than the main one, and nobody is in it.
pub free_room_lem :
    (s : Station) (k : ℕ)
    → free_room s ≡ some k
    → (0 < k) × (k < max_room) × ((s.rooms k).occupants ≡ 0)
unfolding free_room
free_room_lem s k e =
    let b = first_from_sound (max_room - 1) 1 _ k e in
    let pos = max_room_pos in (omega arith, omega arith, (==_iff _ 0).0 b.0)

open_room-WellFormed :
    (s : Station) (unum : ℕ) (room msg : Bytes)
    → unum < max_active
    → connected (s.users unum) ≡ true
    → WellFormed s
    → WellFormed (open_room s unum room msg)
unfolding open_room
open_room-WellFormed s unum room msg l c w = elim (Bool-cases (outsider (s.users unum))) [
  | inl o ↦ rw o (Keeps-WellFormed (send_to_unum-Keeps s unum _) w)
  | inr o ↦ elim (Option-cases (free_room s)) [
    | inl e ↦ rw (o, e, open_room) (Keeps-WellFormed (send_to_unum-Keeps s unum _) w)
    | inr (k, e) ↦
        let (_, lk, empty) = free_room_lem s k e in
        let keep = set_room-Keeps s k (new_room s room) (unfold new_room in sym empty) in
        rw (o, e, open_room)
          (move_to-WellFormed (set_room s k (new_room s room)) unum k true room msg l lk
            (unfold set_room in c) (Keeps-WellFormed keep w))
  ]
]

-- Entering a room, an old or a new one, keeps the station well formed on every branch.
pub enter_room-WellFormed :
    (s : Station) (unum : ℕ) (room msg : Bytes)
    → unum < max_active
    → connected (s.users unum) ≡ true
    → WellFormed s
    → WellFormed (enter_room s unum room msg)
unfolding enter_room
enter_room-WellFormed s unum room msg l c w = elim (Option-cases (roomid_to_indx s room)) [
  | inl e ↦ rw (e, enter_room) (open_room-WellFormed s unum room msg l c w)
  | inr (k, e) ↦
      rw (e, enter_room)
        (move_to-WellFormed s unum k false room msg l (roomid_to_indx_bound s room k e) c w)
]

pub print_user_counts-Keeps : (s : Station) (unum : ℕ) → Keeps s (print_user_counts s unum)
unfolding print_user_counts
print_user_counts-Keeps s unum = send_to_unum-Keeps s unum _

-- `logout_user` is sound for a user that is in no room.
pub logout_user-Keeps :
    (s : Station) (unum : ℕ) → (s.users unum).room ≡ none → Keeps s (logout_user s unum)
unfolding logout_user set_user blank_user update
logout_user-Keeps s unum e = record {
  who = λ i r. elim (Bool-cases (i == unum)) [
    | inl f ↦ let p : i ≡ unum = (==_iff i unum).0 f in rw (f, p) (ground arith)
    | inr f ↦ rw f
  ];
  counts = λ r. refl;
}
