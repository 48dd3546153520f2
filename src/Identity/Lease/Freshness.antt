-- ===== src/Identity/Lease/Freshness.antt =====
-- Where a leased token comes from.
use jira_bot.Base.{
  ℕ, if_either, if_cases, if◌then◌else◌, ltb, leb, ◌||◌, ◌*◌, ◌^◌, ◌+◌, ◌≤◌, ◌<◌, ◌≡◌, refl, sym,
  ◌∙◌, true, [], ◌∷◌, none, some, arith, Text, ℤ, pos, negsuc, int_eq, ◌==◌,
}
use jira_bot.Poller.Changes.{is_empty}
use jira_bot.Storage.{User}
use jira_bot.Identity.Lease.{
  LeaseRequest, LeaseResponse, leased, Read, read_error, no_user, found, Refreshed, refreshed,
  token_invalid, failed, Surroundings, Effects, refresh_skew, duration_bits, min_ttl,
  build_response, is_current, kept_refresh, save_tokens, lease_locked, lease_read, lease,
  update_tokens,
}

-- Where a leased token comes from: a row that was read, current for the time that was asked for, with
-- nothing stored or sent; or a refresh whose outcome was stored before the lease was given.
pub data Source (s : Surroundings) (ttl : ℕ) (r : LeaseResponse) (out : Effects) : Type 0 where
  from_first :
      (u : User)
      → s.first_read ≡ found u
      → s.first_now + ttl < u.token_expires_at * 1000000
      → r ≡ build_response u
      → out.sent_refresh ≡ []
      → out.stored ≡ none
      → Source s ttl r out
  from_second :
      (u : User)
      → s.second_read ≡ found u
      → s.second_now + ttl < u.token_expires_at * 1000000
      → r ≡ build_response u
      → out.sent_refresh ≡ []
      → out.stored ≡ none
      → Source s ttl r out
  from_refresh :
      (u : User) (access refresh : Text) (expires_at : ℕ)
      → s.second_read ≡ found u
      → s.oauth u.refresh_token ≡ refreshed access refresh expires_at
      → out.sent_refresh ≡ u.refresh_token ∷ []
      → out.stored ≡ some (access, (kept_refresh u.refresh_token refresh, expires_at))
      → r ≡ build_response (update_tokens out.stored u)
      → Source s ttl r out

leased_injective : {a b : LeaseResponse} → leased a ≡ leased b → a ≡ b
leased_injective h = ground arith

abbrev Leases : Surroundings → ℕ → LeaseResponse → Effects → Type 0
Leases s ttl r out = out.answer ≡ leased r → Source s ttl r out

save_tokens-Source :
    (s : Surroundings) (ttl : ℕ) (u : User) (r : LeaseResponse) (a : Refreshed)
    → s.second_read ≡ found u
    → s.oauth u.refresh_token ≡ a
    → Leases s ttl r (save_tokens u s.update_ok a)
unfolding save_tokens update_tokens
save_tokens-Source s ttl u r token_invalid e o = λ h. ground arith
save_tokens-Source s ttl u r failed e o = λ h. ground arith
save_tokens-Source s ttl u r (refreshed access refresh expires_at) e o =
    if_either (Leases s ttl r) s.update_ok
      (λ h.
        from_refresh u access refresh expires_at e o refl refl
          (sym (leased_injective h) ∙ unfold build_response in refl))
      (λ h. ground arith)

current_lt :
    (ttl now : ℕ) (u : User)
    → is_current ttl now u ≡ true
    → now + ttl < u.token_expires_at * 1000000
current_lt ttl now u h = ground arith

lease_locked-Source :
    (s : Surroundings) (ttl : ℕ) (r : LeaseResponse) (second : Read)
    → s.second_read ≡ second
    → Leases s ttl r (lease_locked s ttl second)
unfolding lease_locked
lease_locked-Source s ttl r read_error e = λ h. ground arith
lease_locked-Source s ttl r no_user e = λ h. ground arith
lease_locked-Source s ttl r (found u) e =
    if_either (Leases s ttl r) (is_empty u.access_token) (λ h. ground arith)
      (if_cases (Leases s ttl r) (is_current ttl s.second_now u)
        (λ current h.
          from_second u e (current_lt ttl s.second_now u current) (sym (leased_injective h)) refl
            refl)
        (λ stale. save_tokens-Source s ttl u r (s.oauth u.refresh_token) e refl))

lease_read-Source :
    (s : Surroundings) (ttl : ℕ) (r : LeaseResponse) (first : Read)
    → s.first_read ≡ first
    → Leases s ttl r (lease_read s ttl first)
unfolding lease_read
lease_read-Source s ttl r read_error e = λ h. ground arith
lease_read-Source s ttl r no_user e = λ h. ground arith
lease_read-Source s ttl r (found u) e =
    if_either (Leases s ttl r) (is_empty u.access_token) (λ h. ground arith)
      (if_cases (Leases s ttl r) (is_current ttl s.first_now u)
        (λ current h.
          from_first u e (current_lt ttl s.first_now u current) (sym (leased_injective h)) refl
            refl)
        (λ stale. lease_locked-Source s ttl r s.second_read refl))

-- The time that a request asks for, in nanoseconds: 0 for seconds below 0, and for more than an int64
-- holds in nanoseconds, where the code's product wraps around.
abbrev pub time_asked : ℤ → ℕ
time_asked (pos n) = if ltb (n * 1000000000) (2 ^ 63) then n * 1000000000 else 0
time_asked (negsuc n) = 0

-- A leased token is either that of a row that was read, not to expire within a time of at least a
-- minute and at least the seconds asked for (so long as those are not negative and fit an int64 in
-- nanoseconds), with nothing sent to the OAuth server and nothing stored; or it is the outcome of
-- exactly one refresh, with the refresh token read under the lock, that was stored before the lease was
-- given, and the lease is that of the row as it then stands.
pub lease-Source :
    (s : Surroundings) (req : LeaseRequest) (r : LeaseResponse)
    → (lease s req).answer ≡ leased r
    → (60000000000 ≤ min_ttl req.min_ttl_seconds)
      × (time_asked req.min_ttl_seconds ≤ min_ttl req.min_ttl_seconds)
      × Source s (min_ttl req.min_ttl_seconds) r (lease s req)
unfolding lease
lease-Source s req r h = (
  at_least (duration_bits req.min_ttl_seconds),
  as_asked req.min_ttl_seconds,
  if_either (Leases s (min_ttl req.min_ttl_seconds) r) (req.telegram_id == pos 0)
      (λ h'. ground arith) (lease_read-Source s (min_ttl req.min_ttl_seconds) r s.first_read refl)
      h,
)
  where
    at_least :
        (bits : ℕ)
        → 60000000000 ≤ (if ltb bits refresh_skew || leb (2 ^ 63) bits then refresh_skew else bits)
    at_least bits = ground arith

    chosen :
        (asked bits : ℕ)
        → asked < 2 ^ 63
        → bits ≡ asked
        → asked ≤ (if ltb bits refresh_skew || leb (2 ^ 63) bits then refresh_skew else bits)
    chosen asked bits fits e = ground arith

    as_asked : (seconds : ℤ) → time_asked seconds ≤ min_ttl seconds
    as_asked (negsuc n) = omega arith
    as_asked (pos n) =
        if_cases (λ (t : ℕ). t ≤ min_ttl (pos n)) (ltb (n * 1000000000) (2 ^ 63))
          (λ fits.
            let fit : n * 1000000000 < 2 ^ 63 = ground arith in
            chosen (n * 1000000000) (duration_bits (pos n)) fit (omega arith))
          (λ wraps. omega arith)
