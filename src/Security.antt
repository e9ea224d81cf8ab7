-- ===== src/Security.antt =====
-- src/security/auth.ts and src/security/tls.ts: who may connect, and where the daemon may listen.
mod Tests
use pi_threads.Base.{
  ℕ, ◌≡◌, ◌↔◌, refl, String, Bool, true, false, not, ◌&&◌, ◌||◌, List, Option, none, some, any,
  if◌then◌else◌, if_cases, str_eq, is_truthy, arith, eq_iff, ◌⊎◌, inl, inr, ◌≢◌, sym, ap, subst,
}
use pi_threads.Protocol.Errors.{
  DaemonError, ErrorCode, Result, ok, err, throw, unauthorized, forbidden,
}

pub record AuthConfig : Type 0 where
  pub token : Option String
  pub token_env : Option String

pub record TlsConfig : Type 0 where
  pub cert : Option String
  pub key : Option String

abbrev pub is_loopback_host : String → Bool
is_loopback_host host = str_eq host "127.0.0.1" || str_eq host "::1" || str_eq host "localhost"

unfoldable pub assert_tls_allowed_for_bind : String → TlsConfig → Result (Unit {0})
assert_tls_allowed_for_bind host tls =
    if is_loopback_host host
    then ok tt
    else if not (is_truthy tls.cert) || not (is_truthy tls.key)
    then throw forbidden "Non-loopback TCP requires TLS certificate and key"
    else ok tt

unfoldable pub assert_origin_allowed : List String → Option String → Result (Unit {0})
assert_origin_allowed allowed origin = elim origin [
  | none ↦ ok tt
  | some o ↦
      if str_eq o ""
      then ok tt
      else if not (any (λ a. str_eq a o) allowed)
      then throw forbidden "Origin rejected"
      else ok tt
]

abbrev or_empty : Option String → String
or_empty none = ""
or_empty (some s) = s

-- The environment, and the token that the pattern of a bearer header finds.
module _ (environment : String → Option String) (bearer : String → Option String) where
  abbrev pub token_of : Option String → Option String
  token_of none = none
  token_of (some name) = environment name

  unfoldable pub resolve_token : AuthConfig → Option String
  resolve_token config =
      if is_truthy config.token
      then config.token
      else if is_truthy config.token_env
      then token_of config.token_env
      else none

  abbrev pub found_token : Option String → Option String
  found_token none = none
  found_token (some header) = bearer header

  -- `timingSafeEqualText` compares as `===` does.
  abbrev pub compare_token : String → Option String → Result (Unit {0})
  compare_token expected none = throw unauthorized "Bearer token required"
  compare_token expected (some actual) =
      if str_eq actual ""
      then throw unauthorized "Bearer token required"
      else if not (str_eq expected actual)
      then throw forbidden "Bearer token rejected"
      else ok tt

  abbrev pub check_token : Option String → Option String → Result (Unit {0})
  check_token none header = ok tt
  check_token (some expected) header =
      if str_eq expected "" then ok tt else compare_token expected (found_token header)

  unfoldable pub assert_bearer_token : AuthConfig → Option String → Result (Unit {0})
  assert_bearer_token config header = check_token (resolve_token config) header

  unfoldable pub assert_auth_configured_for_bind : String → AuthConfig → Result (Unit {0})
  assert_auth_configured_for_bind host config =
      if is_loopback_host host
      then ok tt
      else if not (is_truthy (resolve_token config))
      then throw forbidden "Non-loopback TCP requires bearer token auth"
      else ok tt

  -- How a request to a daemon with a token ends: it passes with that very token, is unauthorized
  -- without any, and forbidden with another.
  abbrev pub IsChecked : String → Option String → Result (Unit {0}) → Type 0
  IsChecked expected actual (ok _) = actual ≡ some expected
  IsChecked expected actual (err error) =
      ((error.code ≡ unauthorized) × (is_truthy actual ≡ false))
      ⊎ ((error.code ≡ forbidden) × (is_truthy actual ≡ true) × (actual ≢ some expected))

  compare-IsChecked :
      (expected : String) (actual : Option String)
      → IsChecked expected actual (compare_token expected actual)
  compare-IsChecked expected none = inl (refl, refl)
  compare-IsChecked expected (some actual) =
      let P : Result (Unit {0}) → Type 0 = IsChecked expected (some actual) in
      if_cases P (str_eq actual "") (λ e. inl (refl, ground arith))
        (λ e.
          if_cases P (not (str_eq expected actual))
            (λ d. inr (
              refl,
              ground arith,
              λ same.
                  let back = (eq_iff expected actual).1 (sym (ap or_empty same)) in ground arith,
            ))
            (λ d. ap (λ s. some s) (sym ((eq_iff expected actual).0 (ground arith)))))

  checked_lem :
      (expected token : String) (header : Option String)
      → expected ≡ token
      → str_eq token "" ≡ false
      → IsChecked token (found_token header) (check_token (some expected) header)
  checked_lem expected token header e h =
      if_cases (IsChecked token (found_token header)) (str_eq expected "")
        (λ empty. let full = subst (λ s. str_eq s "" ≡ false) (sym e) h in absurd (ground arith))
        (λ _.
          subst (λ s. IsChecked token (found_token header) (compare_token s (found_token header)))
            (sym e) (compare-IsChecked token (found_token header)))

  -- A request to a daemon with a token passes exactly with that token: without any it is
  -- unauthorized, and with another forbidden.
  pub assert_bearer_token-IsChecked :
      (config : AuthConfig) (token : String) (header : Option String)
      → resolve_token config ≡ some token
      → str_eq token "" ≡ false
      → IsChecked token (found_token header) (assert_bearer_token config header)
  unfolding assert_bearer_token
  assert_bearer_token-IsChecked config token header e h = by_expected (resolve_token config) e
    where
      by_expected :
          (o : Option String)
          → o ≡ some token
          → IsChecked token (found_token header) (check_token o header)
      by_expected none e = absurd (ground arith)
      by_expected (some expected) e = checked_lem expected token header (ap or_empty e) h
