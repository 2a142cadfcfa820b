-- ===== src/Record/Write.antt =====
-- `safewrite` of bbssrc/src/record.c: the loop around `write` that survives short writes and
-- interrupted calls.
use firebird_bbs.Base.Text.{Bytes}
use firebird_bbs.Base.{
  ℕ, zero, suc, ◌≤◌, ◌<◌, min, ◌≡◌, refl, ap, sym, ◌∙◌, append_assoc, Bool, true, false, Option,
  none, some, List, [], ◌∷◌, ◌++◌, append-nil, arith, ltb, if◌then◌else◌, length, take, drop,
  take-append-drop, length-drop, Bool-cases, inl, inr,
}

-- What one `write(fd, bp, sz)` does: it takes up to `n` bytes, or fails with EINTR, or fails.
pub data Outcome : Type 0 where
  wrote : ℕ → Outcome
  interrupted failed : Outcome

-- What reached the file, whether the whole call succeeded, and the outcomes not yet used.
pub record Written : Type 0 where
  pub sent : Bytes
  pub success : Bool
  pub later : List Outcome

unfoldable pub after_sent : Bytes → Option Written → Option Written
after_sent s none = none
after_sent s (some w) = some (record w { sent = s ++ w.sent })

-- `none`: the last `write` of the list has returned and the loop wants another.
unfoldable pub safewrite : List Outcome → Bytes → Option Written
unfolding after_sent
safewrite [] buf = none
safewrite (failed ∷ os) buf = some (record { sent = []; success = false; later = os })
safewrite (interrupted ∷ os) buf =
    let again = safewrite os buf in
    if ltb 0 (length buf) then again else some (record { sent = []; success = true; later = os })
safewrite (wrote n ∷ os) buf =
    let cc = min n (length buf) in
    let again = after_sent (take cc buf) (safewrite os (drop cc buf)) in
    if ltb 0 (length (drop cc buf))
    then again
    else some (record { sent = take cc buf; success = true; later = os })

after_sent_inv :
    (s : Bytes) (o : Option Written) (w : Written)
    → after_sent s o ≡ some w
    → (v : Written) × (o ≡ some v) × (w.sent ≡ s ++ v.sent) × (w.success ≡ v.success)
unfolding after_sent
after_sent_inv s none w e = cc
after_sent_inv s (some v) w e = (v, refl, ground arith, ground arith)

empty_of_length : (s : Bytes) → ltb 0 (length s) ≡ false → s ≡ []
empty_of_length [] h = refl
empty_of_length (x ∷ s) h = absurd (ground arith)

-- `buf` splits into what was sent and a rest, which is empty on success.
abbrev pub Sends : Bytes → Written → Type 0
Sends buf w = (rest : Bytes) × (w.sent ++ rest ≡ buf) × (w.success ≡ true → rest ≡ [])

Sends-shift :
    (k : ℕ) (buf : Bytes) (v w : Written)
    → w.sent ≡ take k buf ++ v.sent
    → w.success ≡ v.success
    → Sends (drop k buf) v
    → Sends buf w
Sends-shift k buf v w e s (rest, p, q) =
    (rest, rw (e, append_assoc, p) (take-append-drop k buf), λ t. q (sym s ∙ t))

wrote-Sends :
    (n : ℕ) (os : List Outcome) (buf : Bytes) (w : Written)
    → ((v : Written)
        → safewrite os (drop (min n (length buf)) buf) ≡ some v
        → Sends (drop (min n (length buf)) buf) v)
    → safewrite (wrote n ∷ os) buf ≡ some w
    → Sends buf w
unfolding safewrite
wrote-Sends n os buf w ih e = elim (Bool-cases (ltb 0 (length (drop (min n (length buf)) buf)))) [
  | inl more ↦
      let (v, p, q, r) = after_sent_inv (take (min n (length buf)) buf) _ w (rw more at e) in
      Sends-shift (min n (length buf)) buf v w q r (ih v p)
  | inr all ↦
      let s : w.sent ≡ take (min n (length buf)) buf = ground arith in
      (
        [],
        rw (s, append-nil)
            (sym (append-nil _)
              ∙ ap (◌++◌ (take (min n (length buf)) buf)) (sym (empty_of_length _ all))
              ∙ take-append-drop (min n (length buf)) buf),
        λ _. refl,
      )
]

-- A call of `safewrite` that returns has sent a part of the buffer from its start, in order, and
-- all of it when it reports success, however the system cut the writes up or interrupted them.
pub safewrite-Sends :
    (os : List Outcome) (buf : Bytes) (w : Written) → safewrite os buf ≡ some w → Sends buf w
unfolding safewrite
safewrite-Sends [] buf w e = cc
safewrite-Sends (failed ∷ os) buf w e =
    let s : w.sent ≡ [] = ground arith in (buf, rw s, λ t. absurd (ground arith))
safewrite-Sends (interrupted ∷ os) buf w e = elim (Bool-cases (ltb 0 (length buf))) [
  | inl more ↦ safewrite-Sends os buf w (rw more at e)
  | inr all ↦ let s : w.sent ≡ [] = ground arith in ([], rw (s, empty_of_length buf all), λ _. refl)
]
safewrite-Sends (wrote n ∷ os) buf w e = wrote-Sends n os buf w (λ v. safewrite-Sends os _ v) e

-- How many of the calls take at least one byte.
unfoldable pub progress : List Outcome → ℕ
progress [] = 0
progress (wrote zero ∷ os) = progress os
progress (wrote (suc n) ∷ os) = suc (progress os)
progress (o ∷ os) = progress os

after_sent-total :
    (s : Bytes) (o : Option Written)
    → (w : Written) × (o ≡ some w)
    → (w : Written) × (after_sent s o ≡ some w)
unfolding after_sent
after_sent-total s o (w, e) = (record w { sent = s ++ w.sent }, rw e)

wrote-total :
    (n : ℕ) (os : List Outcome) (buf : Bytes)
    → (0 < length (drop (min n (length buf)) buf)
        → (w : Written) × (safewrite os (drop (min n (length buf)) buf) ≡ some w))
    → (w : Written) × (safewrite (wrote n ∷ os) buf ≡ some w)
unfolding safewrite
wrote-total n os buf ih = elim (Bool-cases (ltb 0 (length (drop (min n (length buf)) buf)))) [
  | inl more ↦
      let next = after_sent-total (take (min n (length buf)) buf) _ (ih (ground arith)) in
      (next.0, rw more next.1)
  | inr all ↦ (record { sent = take (min n (length buf)) buf; success = true; later = os }, rw all)
]

-- The loop ends: among the outcomes it is enough that as many `write` calls take at least one byte
-- as there are bytes in the buffer, which is not empty; interruptions and empty writes do not count.
pub safewrite_total :
    (os : List Outcome) (buf : Bytes)
    → 0 < length buf
    → length buf ≤ progress os
    → (w : Written) × (safewrite os buf ≡ some w)
unfolding safewrite progress
safewrite_total [] buf h p = absurd (omega arith)
safewrite_total (failed ∷ os) buf h p = (record { sent = []; success = false; later = os }, refl)
safewrite_total (interrupted ∷ os) buf h p =
    let (w, e) = safewrite_total os buf h p in (w, ground arith)
safewrite_total (wrote zero ∷ os) buf h p = wrote-total zero os buf λ more.
    safewrite_total os (drop (min zero (length buf)) buf) more
      (omega (arith, length-drop (min zero (length buf)) buf))
safewrite_total (wrote (suc n) ∷ os) buf h p = wrote-total (suc n) os buf λ more.
    safewrite_total os (drop (min (suc n) (length buf)) buf) more
      (omega (arith, length-drop (min (suc n) (length buf)) buf))
