-- ===== src/Api/Client/Retry.antt =====
-- The loop of `doWithRetry`.
use open_friend_mc.Prelude.{
  ℕ, ◌+◌, ◌-◌, ◌*◌, ◌%◌, ◌^◌, ◌≡◌, refl, ◌∙◌, arith, Bool, true, false, not, ◌&&◌, String, ◌==◌,
  comparable_nat, if◌then◌else◌, inl, inr, Bool-cases,
}
use open_friend_mc.Api.Client.{
  Client, Outcome, failed, response, Endpoint, endpoint_presence, endpoint_friends, Fetched, round,
  no_third, do_with_retry, RetryAfter, count_request, refresh_now, start_cooldown, cooldown,
  add_duration, absent, not_a_number, seconds, minus_seconds,
}

abbrev pub status_of : {A : Type 0} → Outcome A → ℕ
status_of failed = 0
status_of (response status _ _ _) = status

abbrev pub retry_of : {A : Type 0} → Outcome A → RetryAfter
retry_of failed = absent
retry_of (response _ _ h _) = h

-- The outcome that decides: that of the second request where the first was refused with 401.
abbrev pub last_of : {A : Type 0} → Outcome A → Outcome A → Outcome A
last_of first then_ = if status_of first == 401 then then_ else first

abbrev pub is_presence : Endpoint → Bool
is_presence endpoint_presence = true
is_presence endpoint_friends = false

-- The pause that a 429 asks for, in nanoseconds: a minute, or the seconds of its Retry-After header as a
-- `time.Duration`, which wraps around at 64 bits.
unfoldable pub pause : RetryAfter → ℕ
pause absent = 60000000000
pause not_a_number = 60000000000
pause (seconds n) = if n * 1000000000 % 2 ^ 64 == 0 then 60000000000 else n * 1000000000 % 2 ^ 64
pause (minus_seconds n) =
    if (2 ^ 64 - n * 1000000000 % 2 ^ 64) % 2 ^ 64 == 0
    then 60000000000
    else (2 ^ 64 - n * 1000000000 % 2 ^ 64) % 2 ^ 64

cooldown-pause : (h : RetryAfter) → cooldown h ≡ pause h
unfolding cooldown pause
cooldown-pause absent = refl
cooldown-pause not_a_number = refl
cooldown-pause (seconds n) = refl
cooldown-pause (minus_seconds n) = refl

-- The client when outcome `o` was the last.
abbrev settled : {A : Type 0} → Endpoint → ℕ → Outcome A → Client → Client
settled ep now o c =
    if status_of o == 429
    then start_cooldown ep (add_duration now (cooldown (retry_of o))) (count_request c)
    else count_request c

module _ {A : Type 0} (ep : Endpoint) (now : ℕ) (etag_in : String)
    (again : Client → Fetched A) where
  last_round :
      (o : Outcome A) (c : Client) → (round ep now etag_in true again o c).0 ≡ settled ep now o c
  unfolding round
  last_round failed c = refl
  last_round (response status etag h body) c = ground arith

  first_round :
      (o : Outcome A) (c : Client)
      → (status_of o == 401) ≡ false
      → (round ep now etag_in false again o c).0 ≡ settled ep now o c
  unfolding round
  first_round failed c e = refl
  first_round (response status etag h body) c e = ground arith

  refused_round :
      (o : Outcome A) (c : Client)
      → (status_of o == 401) ≡ true
      → round ep now etag_in false again o c ≡ again (refresh_now (count_request c))
  unfolding round
  refused_round failed c e = cc
  refused_round (response status etag h body) c e = ground arith

settled_effects :
    {A : Type 0} (ep : Endpoint) (now : ℕ) (o : Outcome A) (c : Client)
    → let d = settled ep now o c in
      let until = add_duration now (pause (retry_of o)) in
      (d.requests ≡ c.requests + 1)
      × (d.refreshes ≡ c.refreshes)
      × (d.presence_cooldown_end
          ≡ (if is_presence ep && (status_of o == 429) then until else c.presence_cooldown_end))
      × (d.friends_cooldown_end ≡ (
          if not (is_presence ep) && (status_of o == 429) then until else c.friends_cooldown_end))
unfolding start_cooldown count_request
settled_effects endpoint_presence now o c = elim (Bool-cases (status_of o == 429)) [
  | inl e ↦ rw (e, cooldown-pause (retry_of o)) (omega arith, refl, refl, refl)
  | inr e ↦ rw e (omega arith, refl, refl, refl)
]
settled_effects endpoint_friends now o c = elim (Bool-cases (status_of o == 429)) [
  | inl e ↦ rw (e, cooldown-pause (retry_of o)) (omega arith, refl, refl, refl)
  | inr e ↦ rw e (omega arith, refl, refl, refl)
]

module _ {A : Type 0} (ep : Endpoint) (now : ℕ) (etag_in : String) (first then_ : Outcome A) where
  client_behind :
      (c : Client)
      → (do_with_retry ep now etag_in first then_ c).0 ≡ (
          if status_of first == 401
          then settled ep now then_ (refresh_now (count_request c))
          else settled ep now first c)
  unfolding do_with_retry
  client_behind c = elim (Bool-cases (status_of first == 401)) [
    | inl e ↦
        rw (refused_round ep now etag_in (round ep now etag_in true no_third then_) first c e, e)
          (last_round ep now etag_in no_third then_ (refresh_now (count_request c)))
    | inr e ↦ rw e (first_round ep now etag_in (round ep now etag_in true no_third then_) first c e)
  ]

  -- `doWithRetry` makes a second request, after one call of `RefreshNow`, exactly when the first is
  -- answered by 401, and never a third. A cooldown starts exactly when the last answer is 429, at
  -- the endpoint called, and for the seconds of its Retry-After header, as a 64-bit duration, or for a
  -- minute where that is none or zero.
  pub do_with_retry_effects :
      (c : Client)
      → let d = (do_with_retry ep now etag_in first then_ c).0 in
        let last = last_of first then_ in
        let until = add_duration now (pause (retry_of last)) in
        (d.requests ≡ (if status_of first == 401 then c.requests + 2 else c.requests + 1))
        × (d.refreshes ≡ (if status_of first == 401 then c.refreshes + 1 else c.refreshes))
        × (d.presence_cooldown_end ≡ (
            if is_presence ep && (status_of last == 429) then until else c.presence_cooldown_end))
        × (d.friends_cooldown_end ≡ (
            if not (is_presence ep) && (status_of last == 429)
            then until
            else c.friends_cooldown_end))
  unfolding count_request refresh_now
  do_with_retry_effects c = elim (Bool-cases (status_of first == 401)) [
    | inl e ↦
        let (a, b, p, q) = settled_effects ep now then_ (refresh_now (count_request c)) in
        rw (client_behind c, e) (a ∙ omega arith, b ∙ omega arith, p, q)
    | inr e ↦ rw (client_behind c, e) (settled_effects ep now first c)
  ]
