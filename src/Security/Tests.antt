-- ===== src/Security/Tests.antt =====
-- A daemon with a token, and a client with another.
use pi_threads.Base.{refl, String, Option, none, some}
use pi_threads.Security.{
  AuthConfig, resolve_token, found_token, assert_bearer_token, IsChecked,
  assert_bearer_token-IsChecked,
}

abbrev environment : String → Option String
environment name = none

abbrev bearer : String → Option String
bearer header = some header

abbrev config : AuthConfig
config = record { token = some "secret"; token_env = none }

assert_bearer_token-IsChecked_example :
    IsChecked environment bearer "secret"
      (found_token environment bearer (some "guess"))
      (assert_bearer_token environment bearer config (some "guess"))
unfolding resolve_token
assert_bearer_token-IsChecked_example =
    assert_bearer_token-IsChecked environment bearer config "secret" (some "guess") refl refl
