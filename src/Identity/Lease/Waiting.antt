-- ===== src/Identity/Lease/Waiting.antt =====
-- The callers that wait for a user's lock.
use jira_bot.Base.{ℕ, ◌+◌, ◌*◌, ◌<◌, ◌≡◌, List, [], none, All}
use jira_bot.Storage.{User}
use jira_bot.Identity.Lease.{leased, Surroundings, Effects, build_response}

-- The token of the row lasts for the time that each caller asks for.
abbrev pub IsFreshFor : (expires_at : ℕ) → List (Surroundings × ℕ) → Type 0
IsFreshFor expires_at callers = All (λ c. c.0.second_now + c.1 < expires_at * 1000000) callers

-- A caller that is given the token of the row.
abbrev pub Takes : User → Effects → Type 0
Takes u out =
    (out.sent_refresh ≡ []) × (out.stored ≡ none) × (out.answer ≡ leased (build_response u))
