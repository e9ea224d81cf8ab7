-- ===== src/Config/Tests.antt =====
-- A configuration that asks for two workers to be kept.
use pi_threads.Base.{◌≡◌, refl, String, false, none, some}
use pi_threads.Config.Values.{Json, obj, field, end, num, natural, fraction}
use pi_threads.Config.{
  default_config, default_worker, default_tcp, merge_config, validate_config, worker_options,
  ClientOptions, resolve_endpoint,
}
use pi_threads.Config.Usable.{IsUsable, validate_config-IsUsable}

abbrev raw : Json
raw =
    obj (
      field "daemon" (obj (field "worker" (obj (field "minWorkers" (num (natural 2)) end)) end))
        end)

abbrev trim : String → String
trim s = s

validate_config-IsUsable_example :
    IsUsable (worker_options (merge_config default_config raw) "/home")
unfolding merge_config default_worker default_tcp validate_config
validate_config-IsUsable_example =
    validate_config-IsUsable trim (merge_config default_config raw) "/home" refl

-- Half a worker is none to keep.
abbrev half : Json
half = obj (
    field "daemon"
      (obj (field "worker" (obj (field "minWorkers" (num (fraction false 0)) end)) end)) end)

half_refused :
    validate_config trim (merge_config default_config half)
    ≡ some "daemon.worker.minWorkers must be a non-negative integer"
unfolding merge_config default_worker default_tcp validate_config
half_refused = refl

abbrev plain : ClientOptions
plain = record {
  connect = none;
  server = none;
  auth_token = none;
  auth_token_env = none;
  tls_ca = none;
}

local_socket : resolve_endpoint default_config plain ≡ some "unix:///tmp/pi-threads.sock"
unfolding resolve_endpoint
local_socket = refl
