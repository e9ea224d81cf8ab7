-- ===== src/Config.antt =====
-- src/config.ts: the configuration file over its defaults, its checks, and the client's settings.
pub mod Values
pub mod Usable
mod Tests
use pi_threads.Base.{
  ℕ, String, Bool, true, false, not, ◌&&◌, ◌||◌, List, [], ◌∷◌, Option, none, some, any,
  if◌then◌else◌, ltb, str_eq, is_truthy, or_else, ◌==◌,
}
use pi_threads.Config.Values.{
  Json, Fields, undefined, bool, num, natural, str, arr, nil, obj, end, field, get, text_of, merge,
  fields_of, is_safe_integer, is_below, number, count_of,
}
use pi_threads.Pool.State.{WorkerPoolOptions}

unfoldable pub default_worker : Fields
default_worker = field "minWorkers" (num (natural 0)) (
    field "maxWorkers" (num (natural 4))
      (field "idleTtlMs" (num (natural 300_000)) (field "reuseAcrossThreads" (bool true) end)))

unfoldable pub default_tcp : Fields
default_tcp = field "enabled" (bool false) (
    field "bind" (str "127.0.0.1")
      (field "port" (num (natural 8765)) (field "allowedOrigins" (arr nil) end)))

abbrev pub default_servers : Fields
default_servers = field "local" (obj (field "endpoint" (str "unix:///tmp/pi-threads.sock") end)) end

abbrev pub default_config : Json
default_config = obj (
    field "defaults" (obj end) (
      field "daemon"
        (obj (
          field "unixSocket" (str "/tmp/pi-threads.sock")
            (field "worker" (obj default_worker) (field "tcp" (obj default_tcp) end))))
        (field "servers" (obj default_servers) end)))

-- The properties that are written last come first here, and a read takes the first.
unfoldable pub merge_config : Json → Json → Json
merge_config base override = obj (
    field "defaults" (merge (get "defaults" base) (get "defaults" override)) (
      field "daemon"
        (obj (
          field "worker"
            (merge (get "worker" (get "daemon" base)) (get "worker" (get "daemon" override)))
            (field "tcp" (merge (get "tcp" (get "daemon" base)) (get "tcp" (get "daemon" override)))
              (fields_of (merge (get "daemon" base) (get "daemon" override))))))
        (field "servers" (merge (get "servers" base) (get "servers" override)) end)))

abbrev pub is_boolean : Json → Bool
is_boolean (bool _) = true
is_boolean _ = false

abbrev pub is_undefined : Json → Bool
is_undefined undefined = true
is_undefined _ = false

abbrev thinking_levels : List String
thinking_levels = "off" ∷ "minimal" ∷ "low" ∷ "medium" ∷ "high" ∷ "xhigh" ∷ "max" ∷ []

abbrev pub is_level : Json → Bool
is_level (str s) = any (λ level. str_eq level s) thinking_levels
is_level _ = false

module _ (trim : String → String) where
  abbrev pub is_full_text : Json → Bool
  is_full_text (str s) = not (str_eq (trim s) "")
  is_full_text _ = false

  -- What `validateConfig` throws, without the name of the file, if it does. Where it compares the two
  -- numbers of workers, they are natural.
  unfoldable pub validate_config : Json → Option String
  validate_config config =
      let worker = get "worker" (get "daemon" config) in
      let defaults = get "defaults" config in
      if not (is_safe_integer (get "maxWorkers" worker)) || is_below (get "maxWorkers" worker) 1
      then some "daemon.worker.maxWorkers must be an integer of at least 1"
      else if not (is_safe_integer (get "minWorkers" worker))
          || is_below (get "minWorkers" worker) 0
      then some "daemon.worker.minWorkers must be a non-negative integer"
      else if ltb (number (get "maxWorkers" worker)) (number (get "minWorkers" worker))
      then some "daemon.worker.minWorkers cannot exceed maxWorkers"
      else if not (is_safe_integer (get "idleTtlMs" worker)) || is_below (get "idleTtlMs" worker) 0
      then some "daemon.worker.idleTtlMs must be a non-negative integer"
      else if not (is_boolean (get "reuseAcrossThreads" worker))
      then some "daemon.worker.reuseAcrossThreads must be a boolean"
      else if not (is_undefined (get "model" defaults)) && not (is_full_text (get "model" defaults))
      then some "defaults.model must be a non-empty string"
      else if not (is_undefined (get "thinking" defaults))
          && not (is_level (get "thinking" defaults))
      then some "defaults.thinking must be one of off, minimal, low, medium, high, xhigh, max"
      else none

  -- `loadConfig` of a file, or of none; what the file holds is parsed JSON.
  abbrev pub load_config : Option Json → Json × Option String
  load_config none = (default_config, none)
  load_config (some raw) =
      let config = merge_config default_config raw in (config, validate_config config)

-- The options of the pool, as the constructor of PiThreadsService reads them.
abbrev pub flag : Json → Option Bool
flag (bool b) = some b
flag _ = none

abbrev pub options_from :
    Option ℕ → Option ℕ → Option ℕ → Option Bool → String → Option WorkerPoolOptions
options_from (some low) (some high) (some ttl) (some reuse) cwd = some (record {
  min_workers = low;
  max_workers = high;
  idle_ttl_ms = ttl;
  reuse_across_threads = reuse;
  prewarm_cwd = cwd;
})
options_from _ _ _ _ cwd = none

abbrev pub worker_options : Json → String → Option WorkerPoolOptions
worker_options config cwd =
    let worker = get "worker" (get "daemon" config) in
    options_from (count_of (get "minWorkers" worker)) (count_of (get "maxWorkers" worker))
      (count_of (get "idleTtlMs" worker)) (flag (get "reuseAcrossThreads" worker)) cwd

-- The options of a client.
pub record ClientOptions : Type 0 where
  pub connect : Option String
  pub server : Option String
  pub auth_token : Option String
  pub auth_token_env : Option String
  pub tls_ca : Option String

pub record ClientConfig : Type 0 where
  pub endpoint : Option String
  pub auth_token : Option String
  pub auth_token_env : Option String
  pub tls_ca : Option String

abbrev pub alias_of : ClientOptions → String
alias_of options = elim options.server [ none ↦ "local" | some s ↦ s ]

abbrev server_endpoint : Json → String → Option String
server_endpoint config alias = text_of (get "endpoint" (get alias (get "servers" config)))

abbrev pub unix_socket : Json → Option String
unix_socket config = text_of (get "unixSocket" (get "daemon" config))

unfoldable pub resolve_endpoint : Json → ClientOptions → Option String
resolve_endpoint config options =
    if is_truthy options.connect
    then options.connect
    else or_else (server_endpoint config (alias_of options)) (unix_socket config)

-- `connect` given and not empty hides the server.
unfoldable pub resolve_client_config : Json → ClientOptions → ClientConfig
resolve_client_config config options =
    let server =
      if is_truthy options.connect
      then undefined
      else get (alias_of options) (get "servers" config) in
    record {
      endpoint =
          or_else options.connect (or_else (text_of (get "endpoint" server)) (unix_socket config));
      auth_token = or_else options.auth_token (text_of (get "authToken" server));
      auth_token_env = or_else options.auth_token_env (text_of (get "authTokenEnv" server));
      tls_ca = or_else options.tls_ca (text_of (get "tlsCa" server));
    }
