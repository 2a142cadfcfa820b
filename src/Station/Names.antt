-- ===== src/Station/Names.antt =====
-- `send_to_room`, and the look-up of room names in `enter_room`, of bbssrc/src/station.c.
use firebird_bbs.Base.Text.{Bytes, bytes_eq_sound, same_name, to_lower, in_bytes}
use firebird_bbs.Base.Maps.{first_from_sound}
use firebird_bbs.Base.{
  ℕ, zero, suc, ◌+◌, ◌≤◌, ◌<◌, ◌≡◌, ◌≢◌, ◌↔◌, refl, sym, ◌∙◌, ap, Bool, true, some, [], ◌∷◌, ◌++◌,
  ◌==◌, ==_iff, arith, Bool-cases, Option-cases, inl, inr, ◌&&◌, length, map,
}
use firebird_bbs.Station.{
  Station, Delivery, Message, max_room, connected, in_room, idlen, roomid_to_indx, indices,
  send_to_room,
}
use firebird_bbs.Station.Rooms.{open_room, enter_room}

indices_iff :
    (n i : ℕ) (p : ℕ → Bool) (k : ℕ)
    → (in_bytes (indices n i p) k ≡ true) ↔ ((i ≤ k) × (k < i + n) × (p k ≡ true))
unfolding indices in_bytes
indices_iff zero i p k = (λ h. cc, λ h. absurd (omega arith))
indices_iff (suc n) i p k = elim (Bool-cases (i == k)) [
  | inl e ↦
      let q : i ≡ k = (==_iff i k).0 e in
      let ih = indices_iff n (k + 1) p k in
      rw q (elim (Bool-cases (p k)) [
        | inl t ↦ (λ h. (omega arith, omega arith, t), λ h. ground arith)
        | inr t ↦ (
          λ h. absurd (let b = ih.0 (rw t at h) in omega arith),
          λ h. absurd (let b = h.2 in ground arith),
        )
      ])
  | inr e ↦
      let ne : i ≢ k = ground arith in
      let ih = indices_iff n (i + 1) p k in
      elim (Bool-cases (p i)) [
        | inl t ↦
            rw (t, e)
              (
                λ h. let b = ih.0 h in (omega arith, omega arith, b.2),
                λ h. ih.1 (omega arith, omega arith, h.2),
              )
        | inr t ↦ rw t (
          λ h. let b = ih.0 h in (omega arith, omega arith, b.2),
          λ h. ih.1 (omega arith, omega arith, h.2),
        )
      ]
]

-- The last delivery of a message to room `r`.
abbrev pub delivered : Station → ℕ → Message → Delivery
delivered s r m = record {
  recipients = indices max_room 0 (λ i. connected (s.users i) && in_room r (s.users i));
  message = m;
}

-- A message to room `r` is one delivery, and it goes exactly to those connected users in the room
-- whose index is below MAXROOM.
pub send_to_room_reaches :
    (s : Station) (r : ℕ) (m : Message)
    → (send_to_room s (some r) m ≡ record s { sent = s.sent ++ delivered s r m ∷ [] })
      × ((k : ℕ)
          → (in_bytes (delivered s r m).recipients k ≡ true)
            ↔ ((k < max_room) × (connected (s.users k) ≡ true) × (in_room r (s.users k) ≡ true)))
unfolding send_to_room
send_to_room_reaches s r m = (
  refl,
  λ k.
      let all = indices_iff max_room 0 (λ i. connected (s.users i) && in_room r (s.users i)) k in
      (
        λ h. let b = all.0 h in (omega arith, ground arith, ground arith),
        λ h. let (l, c, i) = h in all.1 (omega arith, omega arith, rw (c, i)),
      ),
)

-- Every room's name fits its field, as `enter_room` leaves it.
abbrev pub ShortNames : Station → Type 0
ShortNames s = (r : ℕ) → length (s.rooms r).name < idlen

length-map : (f : ℕ → ℕ) (xs : Bytes) → length (map f xs) ≡ length xs
length-map f [] = refl
length-map f (x ∷ xs) = ap suc (length-map f xs)

same_name-length : (a b : Bytes) → same_name a b ≡ true → length a ≡ length b
unfolding same_name
same_name-length a b h =
    sym (length-map to_lower a)
    ∙ ap length (bytes_eq_sound (map to_lower a) (map to_lower b) h)
    ∙ length-map to_lower b

-- A room's name is cut to 11 characters, but looked up whole. So a name of 12 or more characters
-- finds no room, also not the one that was opened by it, and each use opens another room.
pub enter_room_long :
    (s : Station) (unum : ℕ) (room msg : Bytes)
    → ShortNames s
    → idlen ≤ length room
    → enter_room s unum room msg ≡ open_room s unum room msg
unfolding enter_room roomid_to_indx
enter_room_long s unum room msg short long = elim (Option-cases (roomid_to_indx s room)) [
  | inl e ↦ rw (e, enter_room)
  | inr (k, e) ↦
      let found = first_from_sound max_room 0 _ k e in
      let named : same_name room (s.rooms k).name ≡ true = ground arith in
      absurd (omega (arith, short k, same_name-length room (s.rooms k).name named))
]
