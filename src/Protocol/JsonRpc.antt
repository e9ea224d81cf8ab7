-- ===== src/Protocol/JsonRpc.antt =====
-- src/protocol/json-rpc.ts: requests and responses. `JSON.parse` is a parameter, with none for a throw.
use pi_threads.Base.{String, Bool, true, false, ◌&&◌, Option, none, some, if◌then◌else◌}
use pi_threads.Value.{Value, undefined, null, str, obj, end, prop, get, is_object, is_text}
use pi_threads.Protocol.Errors.{
  ErrorCode, DaemonError, Result, ok, throw, invalid_params, unauthorized, forbidden, not_found,
  busy, capacity, external_writer_detected, worker_crashed, pi_rpc_error, timeout,
  event_history_lost, stream_interrupted, stream_overflow, internal,
}

-- The fields of a request that are read.
pub record JsonRpcRequest : Type 0 where
  pub id : Value
  pub method : String
  pub params : Value

abbrev is_string : Value → Bool
is_string (str _) = true
is_string _ = false

unfoldable pub is_json_rpc_request : Value → Bool
is_json_rpc_request value =
    is_object value && is_text (get "jsonrpc" value) "2.0" && is_string (get "method" value)

abbrev pub error_code_text : ErrorCode → String
error_code_text invalid_params = "invalidParams"
error_code_text unauthorized = "unauthorized"
error_code_text forbidden = "forbidden"
error_code_text not_found = "notFound"
error_code_text busy = "busy"
error_code_text capacity = "capacity"
error_code_text external_writer_detected = "externalWriterDetected"
error_code_text worker_crashed = "workerCrashed"
error_code_text pi_rpc_error = "piRpcError"
error_code_text timeout = "timeout"
error_code_text event_history_lost = "eventHistoryLost"
error_code_text stream_interrupted = "streamInterrupted"
error_code_text stream_overflow = "streamOverflow"
error_code_text internal = "internal"

-- `id ?? null`
abbrev pub id_or_null : Value → Value
id_or_null undefined = null
id_or_null id = id

abbrev response_of : Value → String → Value → Value
response_of id key value =
    obj (prop "jsonrpc" (str "2.0") (prop "id" (id_or_null id) (prop key value end)))

unfoldable pub success : Value → Value → Value
success id result = response_of id "result" result

unfoldable pub failure : Value → DaemonError → Value
failure id error =
    response_of id "error" (
      obj (prop "code" (str (error_code_text error.code)) (prop "message" (str error.message) end)))

abbrev pub text_or_empty : Value → String
text_or_empty (str s) = s
text_or_empty _ = ""

abbrev pub request_of : Value → JsonRpcRequest
request_of value = record {
  id = get "id" value;
  method = text_or_empty (get "method" value);
  params = get "params" value;
}

abbrev pub checked_request : Option Value → Result JsonRpcRequest
checked_request none = throw invalid_params "Invalid JSON-RPC JSON"
checked_request (some parsed) =
    if is_json_rpc_request parsed
    then ok (request_of parsed)
    else throw invalid_params "Expected JSON-RPC 2.0 request"

unfoldable pub normalize_params : Value → Result Value
normalize_params undefined = ok (obj end)
normalize_params null = ok (obj end)
normalize_params (obj ps) = ok (obj ps)
normalize_params _ = throw invalid_params "JSON-RPC params must be an object"
