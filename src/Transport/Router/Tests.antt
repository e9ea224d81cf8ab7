-- ===== src/Transport/Router/Tests.antt =====
-- A run of a connection, and the instance of its theorem.
use pi_threads.Base.{◌≡◌, refl, String, List, [], ◌∷◌, Option, some}
use pi_threads.Value.{Value, str, num, obj, prop, end, is_object}
use pi_threads.Protocol.Errors.{Result, ok}
use pi_threads.Protocol.JsonRpc.{is_json_rpc_request, normalize_params}
use pi_threads.Transport.Router.{new_connection, close, handle_line, Step, line, step, run}
use pi_threads.Transport.Router.Owned.{run-closes}

abbrev parse : String → Option Value
parse text =
    some (obj (prop "jsonrpc" (str "2.0") (prop "id" (num 1) (prop "method" (str text) end))))

abbrev string_of : Value → String
string_of v = "1"

abbrev grant : Value → Result String
grant filter = ok "sub_1"

abbrev before : List Step
before = line "subscribe/all" grant ∷ line "thread/list" grant ∷ []

subscribed_once : (run parse string_of new_connection before).live ≡ "sub_1" ∷ []
unfolding run step handle_line is_json_rpc_request is_object normalize_params
subscribed_once = refl

run-closes_example :
    (run parse string_of
      (close (run parse string_of new_connection before))
      (line "subscribe/all" grant ∷ [])).live
    ≡ []
run-closes_example =
    run-closes parse string_of new_connection before (line "subscribe/all" grant ∷ [])
      (record { same = refl; left = refl })
