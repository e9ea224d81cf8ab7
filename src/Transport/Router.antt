-- ===== src/Transport/Router.antt =====
-- src/transport/json-rpc-router.ts: the class JsonRpcConnection. Lines, as texts, come from the loop
-- that Worker/Output models, which `handleChunk` repeats. `parse` is `JSON.parse`, and
-- `string_of` is `String`. The stream is not destroyed before the connection closes, and the callback
-- of a shutdown is left out.
pub mod Owned
mod Tests
use text.Mathlib.Text.{starts_with}
use pi_threads.Base.{
  ℕ, String, Bool, true, false, not, ◌&&◌, ◌||◌, List, [], ◌∷◌, ◌++◌, Option, none, some,
  if◌then◌else◌, str_eq, filter, any,
}
use pi_threads.Value.{Value, undefined, null, bool, str, arr, nil, cons, obj, end, prop, get}
use pi_threads.Protocol.Errors.{DaemonError, Result, ok, err, invalid_params}
use pi_threads.Protocol.JsonRpc.{
  JsonRpcRequest, checked_request, normalize_params, success, failure,
}

-- `live` has the subscriptions of this connection that the service still serves, and `calls` the
-- requests that the service has not answered.
pub record JsonRpcConnection : Type 0 where
  pub closed : Bool
  pub subscriptions : List String
  pub live : List String
  pub calls : List JsonRpcRequest
  pub written : List Value

abbrev pub new_connection : JsonRpcConnection
new_connection = record { closed = false; subscriptions = []; live = []; calls = []; written = [] }

abbrev pub write : JsonRpcConnection → Value → JsonRpcConnection
write c value = if c.closed then c else record c { written = c.written ++ value ∷ [] }

unfoldable pub close : JsonRpcConnection → JsonRpcConnection
close c = record c {
  closed = true;
  live = filter (λ id. not (any (λ s. str_eq s id) c.subscriptions)) c.live;
  subscriptions = [];
}

abbrev pub respond : JsonRpcConnection → Value → Result Value → JsonRpcConnection
respond c id (ok result) = write c (success id result)
respond c id (err error) = write c (failure id error)

abbrev pub is_subscribe : String → Bool
is_subscribe method =
    str_eq method "subscribe/all"
    || str_eq method "subscribe/thread"
    || str_eq method "subscribe/workers"

abbrev worker_types : Value
worker_types =
    arr (cons (str "worker.started") (cons (str "worker.idle") (cons (str "worker.crashed") nil)))

abbrev default_types : Value → Value
default_types undefined = worker_types
default_types null = worker_types
default_types v = v

abbrev put_types : Value → Value
put_types (obj ps) = obj (prop "eventTypes" (default_types (get "eventTypes" (obj ps))) ps)
put_types v = v

abbrev pub filter_of : String → Value → Value
filter_of method params = if str_eq method "subscribe/workers" then put_types params else params

-- The answer of `service.subscribe`: the id of the subscription, or what it throws.
abbrev pub subscribed : JsonRpcConnection → Value → Result String → JsonRpcConnection
subscribed c id (err error) = write c (failure id error)
subscribed c id (ok subscription) =
    write
      (record c {
        subscriptions = c.subscriptions ++ subscription ∷ [];
        live = c.live ++ subscription ∷ [];
      })
      (success id (obj (prop "subscriptionId" (str subscription) end)))

-- `subscriptions.delete(id) && service.unsubscribe(id)`
abbrev pub unsubscribed : JsonRpcConnection → Value → String → JsonRpcConnection
unsubscribed c id subscription =
    if str_eq subscription ""
    then write c
        (failure id (record { code = invalid_params; message = "subscriptionId is required" }))
    else write
        (record c {
          subscriptions = filter (λ s. not (str_eq s subscription)) c.subscriptions;
          live =
              if any (λ s. str_eq s subscription) c.subscriptions
              then filter (λ s. not (str_eq s subscription)) c.live
              else c.live;
        })
        (success id (
          obj (
            prop "ok"
              (bool (
                any (λ s. str_eq s subscription) c.subscriptions
                && any (λ s. str_eq s subscription) c.live))
              end)))

-- A line comes with what `service.subscribe` does at its time.
pub data Step : Type 0 where
  line : String → (Value → Result String) → Step
  answer : JsonRpcRequest → Result Value → Step
  closes : Step

module _ (parse : String → Option Value) (string_of : Value → String) where
  abbrev id_text : Value → String
  id_text undefined = ""
  id_text null = ""
  id_text v = string_of v

  abbrev pub dispatch :
      JsonRpcConnection
      → JsonRpcRequest
      → (Value → Result String)
      → Result Value
      → JsonRpcConnection
  dispatch c request subscribe (err error) = write c (failure request.id error)
  dispatch c request subscribe (ok params) =
      if is_subscribe request.method
      then subscribed c request.id (subscribe (filter_of request.method params))
      else if starts_with request.method "unsubscribe/"
      then unsubscribed c request.id (id_text (get "subscriptionId" params))
      else record c { calls = c.calls ++ request ∷ [] }

  abbrev pub handle_request :
      JsonRpcConnection → (Value → Result String) → Result JsonRpcRequest → JsonRpcConnection
  handle_request c subscribe (err error) = write c (failure undefined error)
  handle_request c subscribe (ok request) =
      dispatch c request subscribe (normalize_params request.params)

  -- A line of `handleChunk`, which a closed connection does not take.
  unfoldable pub handle_line :
      JsonRpcConnection → String → (Value → Result String) → JsonRpcConnection
  handle_line c text subscribe =
      if c.closed then c else handle_request c subscribe (checked_request (parse text))

  unfoldable pub step : JsonRpcConnection → Step → JsonRpcConnection
  step c (line text subscribe) = handle_line c text subscribe
  step c (answer request result) = respond c request.id result
  step c closes = close c

  unfoldable pub run : JsonRpcConnection → List Step → JsonRpcConnection
  run c [] = c
  run c (s ∷ ss) = run (step c s) ss
