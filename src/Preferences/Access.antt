-- ===== src/Preferences/Access.antt =====
-- internal/preferences/server.go: who may change a preference.
use jira_bot.Base.{
  true, false, none, some, arith, ◌≡◌, sym, subst, refl, Text, ℤ, pos, codes, text_eq, int_eq, ◌==◌,
  ◌≤◌, ==_iff, inl, inr, Option-cases, Bool-cases, ◌⊎◌,
}
use jira_bot.Preferences.Bearer.{HasToken, is_authorized-HasToken, HasToken-is_authorized}
use jira_bot.Storage.Settings.{Setter, Arguments, Db, written, set}
use jira_bot.Preferences.{
  Env, Request, Response, provider_error, store_error, no_body, is_authorized, serve_set,
  provider_set, decode_post, decode_body, write_provider_error, status_for_code, refusal,
  write_error, method_not_allowed, invalid_request, unauthorized,
}

-- The POST of a setter that the server carries out.
abbrev pub IsAccepted : Env → (s : Setter) → Request → (id : ℤ) → Arguments s → Type 0
IsAccepted env s r id a =
    (r.method ≡ codes "POST")
    × HasToken env.auth_token r
    × (decode_body (env.decode s) r.body ≡ some (id, a))
    × ((id == pos 0) ≡ false)
    × (env.health.can_write ≡ true)

abbrev pub accepted : Response
accepted = record { status = 204; content = no_body }

pub refusal-none :
    (token method : Text) (r : Request)
    → r.method ≡ method
    → HasToken token r
    → refusal token method r ≡ none
unfolding refusal
refusal-none token method r same bearer =
    ground (arith, ==_iff r.method method, HasToken-is_authorized token r bearer)

pub serve_set-accepted :
    (env : Env) (s : Setter) (r : Request) (id : ℤ) (a : Arguments s) (db : Db)
    → IsAccepted env s r id a
    → serve_set env s r db ≡ (accepted, written env.health s id a db)
unfolding serve_set decode_post provider_set set
serve_set-accepted env s r id a db (method, bearer, decoded, nonzero, up) =
    rw
      (
        refusal-none env.auth_token (codes "POST") r method bearer,
        decoded,
        nonzero,
        up,
        serve_set,
        decode_post,
        provider_set,
        set,
      )
      refl

refusal-cases :
    (token method : Text) (r : Request)
    → ((refusal token method r ≡ none) × (r.method ≡ method) × HasToken token r)
      ⊎ ((answer : Response) × (refusal token method r ≡ some answer) × (400 ≤ answer.status))
unfolding refusal
refusal-cases token method r = elim (Bool-cases (r.method == method)) [
  | inr other ↦ inr (method_not_allowed, rw other refl, omega arith)
  | inl same ↦ elim (Bool-cases (is_authorized token r)) [
    | inl bearer ↦ inl (
      rw (same, bearer) refl,
      (==_iff r.method method).0 same,
      is_authorized-HasToken token r bearer,
    )
    | inr stranger ↦ inr (write_error 401 unauthorized, rw (same, stranger) refl, omega arith)
  ]
]

refused :
    (result : Response × Db) (answer : Response) (db : Db)
    → result ≡ (answer, db)
    → 400 ≤ answer.status
    → (400 ≤ result.0.status) × (result.1 ≡ db)
refused result answer db e bad = subst (λ x. (400 ≤ x.0.status) × (x.1 ≡ db)) (sym e) (bad, refl)

-- A request that changes preferences is a POST whose Authorization header is "Bearer " and the token,
-- where one is configured, and every other leaves the state alone: the server either carries out the setter that
-- it decoded for a Telegram id that is not zero and answers 204, or it answers with a status from 400
-- on and the rows and events are as before.
pub serve_set-Outcome :
    (env : Env) (s : Setter) (r : Request) (db : Db)
    → ((id : ℤ) × (a : Arguments s) × IsAccepted env s r id a
        × (serve_set env s r db ≡ (accepted, written env.health s id a db)))
      ⊎ ((400 ≤ (serve_set env s r db).0.status) × ((serve_set env s r db).1 ≡ db))
unfolding serve_set decode_post provider_set set write_provider_error status_for_code
serve_set-Outcome env s r db = elim (refusal-cases env.auth_token (codes "POST") r) [
  | inr (answer, stopped, bad) ↦
      inr (refused (serve_set env s r db) answer db (rw (stopped, serve_set, decode_post) refl) bad)
  | inl (passed, method, bearer) ↦ elim (Option-cases (decode_body (env.decode s) r.body)) [
    | inl bad ↦ inr (
        refused (serve_set env s r db) (write_error 400 invalid_request) db
          (rw (passed, bad, serve_set, decode_post) refl) (omega arith))
    | inr ((id, a), decoded) ↦ elim (Bool-cases (id == pos 0)) [
      | inl zero_id ↦ inr (
          refused (serve_set env s r db) (write_provider_error (provider_error invalid_request)) db
            (rw (passed, decoded, zero_id, serve_set, decode_post, provider_set) refl)
            (omega arith))
      | inr nonzero ↦ elim (Bool-cases env.health.can_write) [
        | inr down ↦ inr (
            refused (serve_set env s r db) (write_provider_error store_error) db
              (rw (passed, decoded, nonzero, down, serve_set, decode_post, provider_set, set) refl)
              (omega arith))
        | inl up ↦
            let ok_post : IsAccepted env s r id a = (method, bearer, decoded, nonzero, up) in
            inl (id, a, ok_post, serve_set-accepted env s r id a db ok_post)
      ]
    ]
  ]
]
