-- ===== src/Station/Server.antt =====
-- Receiving lines, and the connections of bbssrc/src/station.c.
use firebird_bbs.Base.Text.{Bytes}
use firebird_bbs.Base.Maps.{first_from}
use firebird_bbs.Base.{
  ℕ, Bool, true, false, not, Option, none, some, ◌>>=◌, [], ◌∷◌, ◌++◌, ◌==◌, ltb, if◌then◌else◌,
  take, length,
}
use firebird_bbs.Station.{Station, exit_lostconn, max_active, connected, set_user}
use firebird_bbs.Station.Rooms.{exit_room, logout_user}
use firebird_bbs.Station.Session.{command_execute}

unfoldable pub set_ibuf : Station → ℕ → Bytes → Station
set_ibuf s unum b = set_user s unum (record (s.users unum) { ibuf = b })

-- The string in an array, up to the zero.
unfoldable pub cut_nul : Bytes → Bytes
cut_nul [] = []
cut_nul (c ∷ cs) = let rest = cut_nul cs in if c == 0 then [] else c ∷ rest

-- The loop after a line. It goes on over `chatbuf`, which the command has overwritten with what it
-- sent last: what bytes behind a line do is not in the model, and is `none`.
unfoldable pub after_line : ℕ → Bytes → Station × Bool → Option (Station × Bool)
after_line unum input (s, false) = some (s, false)
after_line unum [] (s, true) = some (set_ibuf s unum [], true)
after_line unum (c ∷ input) (s, true) = none

-- The loop over the bytes received; `b` is the line so far, of which 127 bytes are kept.
unfoldable pub receive_loop : Station → ℕ → Bytes → Bytes → Option (Station × Bool)
receive_loop s unum b [] = some (set_ibuf s unum b, true)
receive_loop s unum b (c ∷ input) =
    let next = after_line unum input (command_execute (set_ibuf s unum b) unum (cut_nul b)) in
    let same = receive_loop s unum b input in
    let longer = receive_loop s unum (b ++ c ∷ []) input in
    if c == 13 then same else if c == 10 then next else if ltb (length b) 127 then longer else same

-- `recv` gives no data where the connection is lost.
unfoldable pub process_chat_command : Station → ℕ → Bytes → Option (Station × Bool)
process_chat_command s unum [] = some (exit_room s unum exit_lostconn [], false)
process_chat_command s unum (c ∷ input) = receive_loop s unum (s.users unum).ibuf (c ∷ input)

-- A round of the server for one readable descriptor.
unfoldable pub serve : Station → ℕ → Bytes → Option Station
serve s unum input = do
  (s', kept) ← process_chat_command s unum input
  some (if kept then s' else logout_user s' unum)

-- `accept` gave descriptor `fd` from `host`; with no free entry the connection is closed.
unfoldable pub accept_user : Station → ℕ → Bytes → Station
accept_user s fd host = elim (first_from max_active 0 (λ i. not (connected (s.users i)))) [
  | none ↦ s
  | some i ↦
      set_user s i (record (s.users i) { sockfd = some fd; room = none; host = take 29 host })
]
