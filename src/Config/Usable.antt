-- ===== src/Config/Usable.antt =====
-- What a configuration that passes its checks gives the pool, and which endpoint a client uses.
use pi_threads.Base.{
  ◌≤◌, ◌<◌, ◌≡◌, ◌≢◌, refl, String, true, false, not, Option, none, some, arith, if_cases, str_eq,
  is_truthy, eq_iff, or_else, if◌then◌else◌, ap,
}
use pi_threads.Config.Values.{
  Json, undefined, get, num, natural, negative, fraction, bool, text_of, is_safe_integer, is_below,
  number, count_of,
}
use pi_threads.Pool.State.{WorkerPoolOptions}
use pi_threads.Config.{
  validate_config, is_boolean, flag, options_from, worker_options, ClientOptions, alias_of,
  unix_socket, resolve_endpoint, resolve_client_config,
}

abbrev pub IsUsable : Option WorkerPoolOptions → Type 0
IsUsable none = ⊥
IsUsable (some o) =
    (1 ≤ o.max_workers)
    × (o.min_workers ≤ o.max_workers)
    × (o.max_workers < 9_007_199_254_740_992)
    × (o.idle_ttl_ms < 9_007_199_254_740_992)

-- A safe integer that is not below zero.
abbrev IsCount : Json → Type 0
IsCount v = (count_of v ≡ some (number v)) × (number v < 9_007_199_254_740_992)

count_lem : (v : Json) → is_safe_integer v ≡ true → is_below v 0 ≡ false → IsCount v
count_lem (num (natural n)) h k = (refl, ground arith)
count_lem (num (negative n)) h k = absurd (ground arith)
count_lem (num (fraction s n)) h k = absurd (ground arith)
count_lem v h k = absurd (ground arith)

above_lem : (v : Json) → is_below v 1 ≡ false → is_below v 0 ≡ false
above_lem (num (natural n)) h = ground arith
above_lem (num (negative n)) h = absurd (ground arith)
above_lem (num (fraction true n)) h = absurd (ground arith)
above_lem (num (fraction false n)) h = ground arith
above_lem v h = refl

least_lem : (v : Json) → is_safe_integer v ≡ true → is_below v 1 ≡ false → 1 ≤ number v
least_lem (num (natural n)) h k = ground arith
least_lem (num (negative n)) h k = absurd (ground arith)
least_lem (num (fraction s n)) h k = absurd (ground arith)
least_lem v h k = absurd (ground arith)

from-IsUsable :
    (low high ttl reuse : Json) (cwd : String)
    → IsCount low
    → IsCount high
    → IsCount ttl
    → is_boolean reuse ≡ true
    → 1 ≤ number high
    → number low ≤ number high
    → IsUsable (options_from (count_of low) (count_of high) (count_of ttl) (flag reuse) cwd)
from-IsUsable low high ttl (bool reuse) cwd (a, la) (b, lb) (c, lc) d e f =
    rw (a, b, c) (e, f, lb, lc)
from-IsUsable low high ttl reuse cwd a b c d e f = absurd (ground arith)

module _ (trim : String → String) where
  -- A configuration that passes its checks gives the pool all its options: at least one worker at
  -- most, no more workers kept than that, and each a safe integer.
  pub validate_config-IsUsable :
      (config : Json) (cwd : String)
      → validate_config trim config ≡ none
      → IsUsable (worker_options config cwd)
  unfolding validate_config
  validate_config-IsUsable config cwd h =
      let worker = get "worker" (get "daemon" config) in
      let low = get "minWorkers" worker in
      let high = get "maxWorkers" worker in
      let ttl = get "idleTtlMs" worker in
      let safe_high : is_safe_integer high ≡ true = ground arith in
      let least : is_below high 1 ≡ false = ground arith in
      from-IsUsable low high ttl (get "reuseAcrossThreads" worker) cwd
        (count_lem low (ground arith) (ground arith))
        (count_lem high safe_high (above_lem high least))
        (count_lem ttl (ground arith) (ground arith)) (ground arith)
        (least_lem high safe_high least) (ground arith)

agree_lem :
    (connect : Option String) (server : Json) (socket : Option String)
    → connect ≢ some ""
    → or_else connect (
        or_else (text_of (get "endpoint" (if is_truthy connect then undefined else server))) socket)
      ≡ (if is_truthy connect then connect else or_else (text_of (get "endpoint" server)) socket)
agree_lem none server socket h = refl
agree_lem (some c) server socket h =
    if_cases {A = Option String} (λ r. some c ≡ r) (not (str_eq c "")) (λ _. refl)
      (λ e. absurd (h (ap (λ s. some s) ((eq_iff c "").0 (ground arith)))))

-- Unless an empty text is given to connect to, both functions that resolve the endpoint agree.
pub resolve_client_config-endpoint :
    (config : Json) (options : ClientOptions)
    → options.connect ≢ some ""
    → (resolve_client_config config options).endpoint ≡ resolve_endpoint config options
unfolding resolve_client_config resolve_endpoint
resolve_client_config-endpoint config options h =
    agree_lem options.connect (get (alias_of options) (get "servers" config)) (unix_socket config) h
