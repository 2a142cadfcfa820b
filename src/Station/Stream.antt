-- ===== src/Station/Stream.antt =====
-- How `process_chat_command` of bbssrc/src/station.c puts lines together from what it receives.
use firebird_bbs.Base.Text.{Bytes}
use firebird_bbs.Base.{
  ℕ, ◌≡◌, refl, ap, ◌∙◌, Bool, true, false, not, ◌&&◌, some, Bool-cases, inl, inr, [], ◌∷◌, ◌++◌,
  ltb, ◌==◌, if◌then◌else◌, length, arith, ◌>>=◌,
}
use firebird_bbs.Station.{Station}
use firebird_bbs.Station.Rooms.{logout_user}
use firebird_bbs.Station.Session.{command_execute}
use firebird_bbs.Station.Server.{
  set_ibuf, receive_loop, process_chat_command, after_line, cut_nul, serve,
}

-- The bytes hold no newline.
abbrev pub in_line : Bytes → Bool
in_line [] = true
in_line (c ∷ x) = not (c == 10) && in_line x

-- The line so far, once more of it has come.
abbrev pub kept : Bytes → Bytes → Bytes
kept b [] = b
kept b (c ∷ x) =
    if c == 13 then kept b x else if ltb (length b) 127 then kept (b ++ c ∷ []) x else kept b x

receive_loop-kept :
    (s : Station) (unum : ℕ) (b x y : Bytes)
    → in_line x ≡ true
    → receive_loop s unum b (x ++ y) ≡ receive_loop s unum (kept b x) y
unfolding receive_loop
receive_loop-kept s unum b [] y h = refl
receive_loop-kept s unum b (c ∷ x) y h =
    let inside : (c == 10) ≡ false = ground arith in
    let same = receive_loop-kept s unum b x y (ground arith) in
    let longer = receive_loop-kept s unum (b ++ c ∷ []) x y (ground arith) in
    elim (Bool-cases (c == 13)) [
      | inl e ↦ rw e same
      | inr e ↦ elim (Bool-cases (ltb (length b) 127)) [
        | inl f ↦ rw (e, inside, f) longer
        | inr f ↦ rw (e, inside, f) same
      ]
    ]

-- What a line that has been done leaves: the entry waits for the next one, or is logged out.
abbrev pub ended : ℕ → Station × Bool → Station
ended unum r = if r.1 then set_ibuf r.0 unum [] else logout_user r.0 unum

ended-some :
    (unum : ℕ) (r : Station × Bool)
    → (after_line unum [] r >>= λ q. some (if q.1 then q.0 else logout_user q.0 unum))
      ≡ some (ended unum r)
unfolding after_line
ended-some unum (s, true) = refl
ended-some unum (s, false) = refl

receive_loop_newline :
    (s : Station) (unum : ℕ) (b : Bytes)
    → receive_loop s unum b (10 ∷ [])
      ≡ after_line unum [] (command_execute (set_ibuf s unum b) unum (cut_nul b))
unfolding receive_loop
receive_loop_newline s unum b = refl

-- A packet that ends with its only newline has its line done, with what the entry held before it.
pub serve-line :
    (s : Station) (unum c : ℕ) (x : Bytes)
    → in_line (c ∷ x) ≡ true
    → let l = kept (s.users unum).ibuf (c ∷ x) in
      serve s unum (c ∷ x ++ 10 ∷ [])
      ≡ some (ended unum (command_execute (set_ibuf s unum l) unum (cut_nul l)))
unfolding serve process_chat_command
serve-line s unum c x h =
    let b = (s.users unum).ibuf in
    let l = kept b (c ∷ x) in
    ap (λ o. o >>= λ q. some (if q.1 then q.0 else logout_user q.0 unum))
      (receive_loop-kept s unum b (c ∷ x) (10 ∷ []) h ∙ receive_loop_newline s unum l)
    ∙ ended-some unum (command_execute (set_ibuf s unum l) unum (cut_nul l))
