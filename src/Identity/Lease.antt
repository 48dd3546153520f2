-- ===== src/Identity/Lease.antt =====
-- provider.go: `LocalProvider.Lease`. What the store, the clock and the OAuth server answer is an
-- argument, as are the answers that come while the user's lock is held. Clock readings and the time
-- asked for are in nanoseconds, the instants of a row and of the OAuth server in milliseconds. The messages of the errors are not modelled.
pub mod Freshness
pub mod Waiting
use jira_bot.Base.{
  ℕ, zero, suc, ◌+◌, ◌*◌, ◌/◌, ◌%◌, ◌^◌, ◌-◌, leb, Bool, true, false, not, ◌||◌, List, [], ◌∷◌,
  Option, none, some, ltb, if◌then◌else◌, Text, ℤ, pos, negsuc, int_eq, ◌==◌,
}
use jira_bot.Poller.Changes.{is_empty}
use jira_bot.Storage.{User}

pub record LeaseRequest : Type 0 where
  pub telegram_id : ℤ
  pub min_ttl_seconds : ℤ

pub record LeaseResponse : Type 0 where
  pub access_token : Text
  pub expires_at : ℕ
  pub cloud_id : Text
  pub site_url : Text
  pub jira_account_id : Text

-- The codes of a `LeaseError`.
pub data Code : Type 0 where
  invalid_request not_connected invalid_refresh_token refresh_failed : Code

pub data Answer : Type 0 where
  leased : LeaseResponse → Answer
  lease_error : Code → Answer
  store_error : Answer

-- `GetByTelegramID`: an error, nil, or a user.
pub data Read : Type 0 where
  read_error no_user : Read
  found : User → Read

-- `RefreshTokens`; `expires_at` is `TokenExpiresAt` of the answer.
pub data Refreshed : Type 0 where
  refreshed : (access refresh : Text) (expires_at : ℕ) → Refreshed
  token_invalid failed : Refreshed

-- What the calls of one lease meet: the reads and the clock before and under the lock, the OAuth
-- server's answer to a refresh token, and whether `UpdateTokens` succeeds.
pub record Surroundings : Type 0 where
  pub first_read : Read
  pub first_now : ℕ
  pub second_read : Read
  pub second_now : ℕ
  pub oauth : Text → Refreshed
  pub update_ok : Bool

-- The refresh tokens that were sent, what was stored, and whether the refresh was published.
pub record Effects : Type 0 where
  pub answer : Answer
  pub sent_refresh : List Text
  pub stored : Option (Text × (Text × ℕ))
  pub published : Bool

abbrev pub refresh_skew : ℕ
refresh_skew = 60000000000

-- `time.Duration(seconds) * time.Second` as the 64 bits of an int64.
abbrev pub duration_bits : ℤ → ℕ
duration_bits (pos n) = (n * 1000000000) % 2 ^ 64
duration_bits (negsuc n) = (2 ^ 64 - (suc n * 1000000000) % 2 ^ 64) % 2 ^ 64

-- Bits from 2 ^ 63 on are a negative duration, which is below the skew.
abbrev pub min_ttl : ℤ → ℕ
min_ttl seconds =
    if ltb (duration_bits seconds) refresh_skew || leb (2 ^ 63) (duration_bits seconds)
    then refresh_skew
    else duration_bits seconds

unfoldable pub build_response : User → LeaseResponse
build_response u = record {
  access_token = u.access_token;
  expires_at = u.token_expires_at / 1000;
  cloud_id = u.jira_cloud_id;
  site_url = u.jira_site_url;
  jira_account_id = u.jira_account_id;
}

abbrev pub only : Answer → Effects
only a = record { answer = a; sent_refresh = []; stored = none; published = false }

abbrev pub is_current : ℕ → ℕ → User → Bool
is_current ttl now u = ltb (now + ttl) (u.token_expires_at * 1000000)

abbrev pub kept_refresh : Text → Text → Text
kept_refresh old [] = old
kept_refresh old (c ∷ refresh) = c ∷ refresh

-- From the OAuth server's answer on.
unfoldable pub save_tokens : User → Bool → Refreshed → Effects
save_tokens fresh update_ok token_invalid = record (only (lease_error invalid_refresh_token)) {
  sent_refresh = fresh.refresh_token ∷ [];
}
save_tokens fresh update_ok failed = record (only (lease_error refresh_failed)) {
  sent_refresh = fresh.refresh_token ∷ [];
}
save_tokens fresh update_ok (refreshed access refresh expires_at) =
    if update_ok
    then record {
      answer = leased record {
        access_token = access;
        expires_at = expires_at / 1000;
        cloud_id = fresh.jira_cloud_id;
        site_url = fresh.jira_site_url;
        jira_account_id = fresh.jira_account_id;
      };
      sent_refresh = fresh.refresh_token ∷ [];
      stored = some (access, (kept_refresh fresh.refresh_token refresh, expires_at));
      published = true;
    }
    else record (only store_error) { sent_refresh = fresh.refresh_token ∷ [] }

-- Under the lock, from the second read on.
unfoldable pub lease_locked : Surroundings → ℕ → Read → Effects
lease_locked s ttl read_error = only store_error
lease_locked s ttl no_user = only (lease_error not_connected)
lease_locked s ttl (found fresh) =
    if is_empty fresh.access_token
    then only (lease_error not_connected)
    else if is_current ttl s.second_now fresh
    then only (leased (build_response fresh))
    else save_tokens fresh s.update_ok (s.oauth fresh.refresh_token)

unfoldable pub lease_read : Surroundings → ℕ → Read → Effects
lease_read s ttl read_error = only store_error
lease_read s ttl no_user = only (lease_error not_connected)
lease_read s ttl (found user) =
    if is_empty user.access_token
    then only (lease_error not_connected)
    else if is_current ttl s.first_now user
    then only (leased (build_response user))
    else lease_locked s ttl s.second_read

unfoldable pub lease : Surroundings → LeaseRequest → Effects
lease s req =
    if req.telegram_id == pos 0
    then only (lease_error invalid_request)
    else lease_read s (min_ttl req.min_ttl_seconds) s.first_read

-- `UpdateTokens` on the user's row.
unfoldable pub update_tokens : Option (Text × (Text × ℕ)) → User → User
update_tokens none u = u
update_tokens (some (access, (refresh, expires_at))) u = record u {
  access_token = access;
  refresh_token = refresh;
  token_expires_at = expires_at;
}

-- The callers that found a stale token, in the order in which they hold the user's lock: each reads
-- the row as the one before it left it.
unfoldable pub lease_queue : List (Surroundings × ℕ) → User → List Effects
lease_queue [] u = []
lease_queue ((s, ttl) ∷ callers) u =
    let out = lease_locked s ttl (found u) in out ∷ lease_queue callers (update_tokens out.stored u)
