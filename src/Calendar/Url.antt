-- ===== src/Calendar/Url.antt =====
-- url.go: `Normalize`. `parse` is `url.Parse` of a trimmed text, `to_lower` is `strings.ToLower`,
-- `lookup_ip` is the resolver, and an address carries the answers of the five tests of net.IP.
use jira_bot.Base.{
  Bool, true, false, ◌||◌, List, [], ◌∷◌, Option, none, some, if◌then◌else◌, if_either, if_cases,
  All, arith, ◌≢◌, ◌≡◌, refl, subst, Text, text_eq, list_beq, ◌==◌, codes,
}
use jira_bot.Poller.Changes.{is_empty}

pub record Ip : Type 0 where
  pub is_loopback : Bool
  pub is_private : Bool
  pub is_link_local_unicast : Bool
  pub is_link_local_multicast : Bool
  pub is_unspecified : Bool

-- `host` has the port, `hostname` has not.
pub record Url : Type 0 where
  pub scheme : Text
  pub host : Text
  pub hostname : Text
  pub rest : Text

unfoldable pub is_reserved : Ip → Bool
is_reserved ip =
    ip.is_loopback || ip.is_private || ip.is_link_local_unicast || ip.is_link_local_multicast
    || ip.is_unspecified

unfoldable pub any_reserved : List Ip → Bool
any_reserved [] = false
any_reserved (ip ∷ ips) = is_reserved ip || any_reserved ips

-- The scheme that the address is fetched with, `none` where it is not allowed.
unfoldable pub fetch_scheme : Text → Option Text
fetch_scheme scheme =
    if scheme == codes "http" || scheme == codes "https"
    then some scheme
    else if scheme == codes "webcal"
    then some (codes "https")
    else none

-- `none` is `ErrInvalidURL`.
unfoldable pub check_ips : Url → Option (List Ip) → Option Url
check_ips u none = none
check_ips u (some []) = none
check_ips u (some (ip ∷ ips)) = if any_reserved (ip ∷ ips) then none else some u

-- An address in none of the five ranges.
pub record IsOutside (ip : Ip) : Type 0 where
  pub not_loopback : ip.is_loopback ≡ false
  pub not_private : ip.is_private ≡ false
  pub not_link_local_unicast : ip.is_link_local_unicast ≡ false
  pub not_link_local_multicast : ip.is_link_local_multicast ≡ false
  pub not_unspecified : ip.is_unspecified ≡ false

outside_lem : (ip : Ip) → is_reserved ip ≡ false → IsOutside ip
unfolding is_reserved
outside_lem ip h = record {
  not_loopback = ground arith;
  not_private = ground arith;
  not_link_local_unicast = ground arith;
  not_link_local_multicast = ground arith;
  not_unspecified = ground arith;
}

all-IsOutside : (ips : List Ip) → any_reserved ips ≡ false → All IsOutside ips
unfolding any_reserved
all-IsOutside [] h = tt
all-IsOutside (ip ∷ ips) h = (outside_lem ip (ground arith), all-IsOutside ips (ground arith))

module _ (lookup_ip : Text → Option (List Ip)) where
  unfoldable pub check_host : Url → Option Text → Option Url
  check_host u none = none
  check_host u (some scheme) =
      if is_empty u.host
      then none
      else check_ips (record u { scheme = scheme }) (lookup_ip u.hostname)

  unfoldable pub check_url : (to_lower : Text → Text) → Option Url → Option Url
  check_url to_lower none = none
  check_url to_lower (some u) = check_host u (fetch_scheme (to_lower u.scheme))

  -- The answer is the parsed address that `String` prints.
  unfoldable pub normalize :
      (trim to_lower : Text → Text) (parse : Text → Option Url) → Text → Option Url
  normalize trim to_lower parse raw =
      if is_empty (trim raw) then none else check_url to_lower (parse (trim raw))

  -- What an accepted address has.
  pub record IsNotReserved (u : Url) : Type 0 where
    pub ips : List Ip
    pub resolved : lookup_ip u.hostname ≡ some ips
    pub nonempty : is_empty u.host ≡ false
    pub some_address : ips ≢ []
    pub none_reserved : All IsOutside ips
    pub fetched : ((u.scheme == codes "http") || (u.scheme == codes "https")) ≡ true

  abbrev IsAcceptable : Option Url → Type 0
  IsAcceptable none = Unit
  IsAcceptable (some u) = IsNotReserved u

  check_ips-IsNotReserved :
      (u : Url) (answer : Option (List Ip))
      → lookup_ip u.hostname ≡ answer
      → is_empty u.host ≡ false
      → ((u.scheme == codes "http") || (u.scheme == codes "https")) ≡ true
      → IsAcceptable (check_ips u answer)
  unfolding check_ips
  check_ips-IsNotReserved u none e n f = tt
  check_ips-IsNotReserved u (some []) e n f = tt
  check_ips-IsNotReserved u (some (ip ∷ ips)) e n f =
      if_cases IsAcceptable (any_reserved (ip ∷ ips)) (λ reserved. tt)
        (λ public. record {
          ips = ip ∷ ips;
          resolved = e;
          nonempty = n;
          some_address = λ e. ground arith;
          none_reserved = all-IsOutside (ip ∷ ips) public;
          fetched = f;
        })

  some_injective : {a b : Text} → some a ≡ some b → a ≡ b
  some_injective e = ground arith

  abbrev Allowed : Option Text → Type 0
  Allowed o = (s : Text) → o ≡ some s → ((s == codes "http") || (s == codes "https")) ≡ true

  fetch_scheme_lem :
      (scheme s : Text)
      → fetch_scheme scheme ≡ some s
      → ((s == codes "http") || (s == codes "https")) ≡ true
  unfolding fetch_scheme list_beq
  fetch_scheme_lem scheme s h =
      if_cases Allowed (scheme == codes "http" || scheme == codes "https")
        (λ held s' e.
          subst (λ t. ((t == codes "http") || (t == codes "https")) ≡ true) (some_injective e) held)
        (λ missed.
          if_either Allowed (scheme == codes "webcal")
            (λ s' e.
              subst (λ t. ((t == codes "http") || (t == codes "https")) ≡ true) {x = codes "https"}
                (some_injective e) refl)
            (λ s' e. ground arith))
        s h

  check_host-IsNotReserved :
      (u : Url) (o : Option Text)
      → ((s : Text) → o ≡ some s → ((s == codes "http") || (s == codes "https")) ≡ true)
      → IsAcceptable (check_host u o)
  unfolding check_host
  check_host-IsNotReserved u none h = tt
  check_host-IsNotReserved u (some scheme) h =
      if_cases IsAcceptable (is_empty u.host) (λ missing. tt)
        (λ there.
          check_ips-IsNotReserved (record u { scheme = scheme }) (lookup_ip u.hostname) refl there
            (h scheme refl))

  check_url-IsNotReserved :
      (to_lower : Text → Text) (o : Option Url) → IsAcceptable (check_url to_lower o)
  unfolding check_url
  check_url-IsNotReserved to_lower none = tt
  check_url-IsNotReserved to_lower (some u) =
      check_host-IsNotReserved u (fetch_scheme (to_lower u.scheme))
        (fetch_scheme_lem (to_lower u.scheme))

  accepted_is : (o : Option Url) (u : Url) → o ≡ some u → IsAcceptable o → IsNotReserved u
  accepted_is none u e h = ground arith
  accepted_is (some v) u e h = subst IsAcceptable e h

  -- Only an address with a host, an http or https scheme, and a host name that resolves, at the time
  -- of the check, to at least one address, none of which is a loopback, private, link-local or
  -- unspecified one, is accepted.
  pub normalize-IsNotReserved :
      (trim to_lower : Text → Text) (parse : Text → Option Url) (raw : Text) (u : Url)
      → normalize trim to_lower parse raw ≡ some u
      → IsNotReserved u
  unfolding normalize
  normalize-IsNotReserved trim to_lower parse raw u e =
      accepted_is (normalize trim to_lower parse raw) u e (
        if_either IsAcceptable (is_empty (trim raw)) tt
          (check_url-IsNotReserved to_lower (parse (trim raw))))
