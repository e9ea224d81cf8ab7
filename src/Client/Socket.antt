-- ===== src/Client/Socket.antt =====
-- src/client/socket-client.ts: the class SocketClient, its requests cut at their awaits. The lines of a
-- socket are split as in Worker/Output.
pub mod Accounted
use pi_threads.Base.{
  ℕ, ◌+◌, String, Bool, true, false, not, ◌&&◌, ◌||◌, List, [], ◌∷◌, ◌++◌, Option, none, some, any,
  map, if◌then◌else◌, ◌==◌, str_eq,
}
use pi_threads.Value.{Value, undefined, null, str, get, is_record, is_text}

-- How the promise of a request ends. A daemon may send any text as the code of an error.
pub data Reply : Type 0 where
  resolved : Value → Reply
  rejected : (code message : String) → Reply

pub data Connection : Type 0 where
  unconnected connecting connected : Connection

pub record Pending : Type 0 where
  pub id : String
  pub call : ℕ

-- `waiting` has the requests that wait for `connect`; `sent` the ids of the lines that were sent.
pub record SocketClient : Type 0 where
  pub next_id : ℕ
  pub connection : Connection
  pub closed : Bool
  pub waiting : List ℕ
  pub pending : List Pending
  pub replies : List (ℕ × Reply)
  pub sent : List String
  pub events : List Value
  pub closings : ℕ

abbrev pub new_client : SocketClient
new_client = record {
  next_id = 1;
  connection = unconnected;
  closed = false;
  waiting = [];
  pending = [];
  replies = [];
  sent = [];
  events = [];
  closings = 0;
}

abbrev pub closed_reply : Reply
closed_reply = rejected "workerCrashed" "Daemon connection closed"

abbrev pub reply_to : SocketClient → ℕ → Reply → SocketClient
reply_to c call r = record c { replies = c.replies ++ (call, r) ∷ [] }

abbrev pub is_unconnected : Connection → Bool
is_unconnected unconnected = true
is_unconnected _ = false

-- `request` up to its wait for `connect`.
unfoldable pub request : SocketClient → ℕ → SocketClient
request c call = if c.closed then reply_to c call closed_reply else record c {
  waiting = c.waiting ++ call ∷ [];
  connection = if is_unconnected c.connection then connecting else c.connection;
}

abbrev pub reject_each : Reply → List ℕ → List (ℕ × Reply)
reject_each r [] = []
reject_each r (call ∷ calls) = (call, r) ∷ reject_each r calls

-- The connection failed, or was closed meanwhile: every request that waits for it throws.
abbrev pub reject_waiting : SocketClient → Reply → SocketClient
reject_waiting c r = record c {
  connection = unconnected;
  waiting = [];
  replies = c.replies ++ reject_each r c.waiting;
}

-- `openTransport`, when `connectTransport` has answered.
abbrev pub open_transport : SocketClient → Connection → SocketClient
open_transport c connecting =
    if c.closed then reject_waiting c closed_reply else record c { connection = connected }
open_transport c _ = c

abbrev pub break_transport : SocketClient → Connection → Reply → SocketClient
break_transport c connecting r = reject_waiting c r
break_transport c _ r = c

abbrev pub without : ℕ → List ℕ → List ℕ
without call [] = []
without call (k ∷ ks) = let rest = without call ks in if k == call then ks else k ∷ rest

abbrev pub calls_of : List Pending → List ℕ
calls_of [] = []
calls_of (p ∷ ps) = p.call ∷ calls_of ps

abbrev pub is_waiting : ℕ → List ℕ → Bool
is_waiting call waiting = any (λ k. k == call) waiting

-- The request that has an id, and the others.
pub record Found : Type 0 where
  pub call : ℕ
  pub rest : List Pending

abbrev pub keep : Pending → Option Found → Option Found
keep p none = none
keep p (some f) = some (record { call = f.call; rest = p ∷ f.rest })

abbrev pub take_pending : String → List Pending → Option Found
take_pending id [] = none
take_pending id (p ∷ ps) =
    if str_eq p.id id
    then some (record { call = p.call; rest = ps })
    else keep p (take_pending id ps)

abbrev pub or_value : Value → Value → Value
or_value undefined d = d
or_value null d = d
or_value v d = v

-- `safeParseDaemonLine`, of what `JSON.parse` gives.
abbrev pub safe_parse_daemon_line : Option Value → Option Value
safe_parse_daemon_line none = none
safe_parse_daemon_line (some v) = if is_record v then some v else none

-- `handleClose`: both the transport and `close` call it.
unfoldable pub handle_close : SocketClient → SocketClient
handle_close c = if c.closed then c else record c {
  closed = true;
  replies = c.replies ++ reject_each closed_reply (calls_of c.pending);
  pending = [];
  closings = c.closings + 1;
}

-- `text_of` is `String`, of numbers and of other values.
module _ (show : ℕ → String) (text_of : Value → String) where
  abbrev pub send_request : SocketClient → ℕ → Option Reply → SocketClient
  send_request c call (some thrown) = reply_to (record c { next_id = c.next_id + 1 }) call thrown
  send_request c call none = record c {
    next_id = c.next_id + 1;
    pending = c.pending ++ record { id = show c.next_id; call = call } ∷ [];
    sent = c.sent ++ show c.next_id ∷ [];
  }

  -- The rest of `request`, once connected; `send` may throw.
  abbrev pub go_on : SocketClient → ℕ → Connection → Option Reply → SocketClient
  go_on c call connected thrown =
      if not (is_waiting call c.waiting)
      then c
      else let left = record c { waiting = without call c.waiting } in
        if c.closed then reply_to left call closed_reply else send_request left call thrown
  go_on c call _ thrown = c

  abbrev pub reply_of : Value → Reply
  reply_of payload =
      let error = get "error" payload in
      if is_record error
      then rejected (text_of (or_value (get "code" error) (str "internal")))
          (text_of (or_value (get "message" error) (str "Daemon returned an error")))
      else resolved (get "result" payload)

  abbrev pub settle_found : SocketClient → Value → Option Found → SocketClient
  settle_found c payload none = c
  settle_found c payload (some f) =
      reply_to (record c { pending = f.rest }) f.call (reply_of payload)

  abbrev pub handle_payload : SocketClient → Option Value → SocketClient
  handle_payload c none = c
  handle_payload c (some payload) =
      if is_text (get "method" payload) "thread/event"
      then record c { events = c.events ++ get "params" payload ∷ [] }
      else settle_found c payload (take_pending (text_of (get "id" payload)) c.pending)

  -- `handleLine`; the argument is what `JSON.parse` gives, none where it throws.
  unfoldable pub handle_line : SocketClient → Option Value → SocketClient
  handle_line c parsed = handle_payload c (safe_parse_daemon_line parsed)

-- The callers, the transport and its lines.
pub data Input : Type 0 where
  requests : (call : ℕ) → Input
  proceeds : (call : ℕ) (thrown : Option Reply) → Input
  opens closes : Input
  breaks : Reply → Input
  receives : Option Value → Input

module _ (show : ℕ → String) (text_of : Value → String) where
  unfoldable pub step : SocketClient → Input → SocketClient
  step c (requests call) = request c call
  step c (proceeds call thrown) = go_on show text_of c call c.connection thrown
  step c opens = open_transport c c.connection
  step c closes = handle_close c
  step c (breaks r) = break_transport c c.connection r
  step c (receives parsed) = handle_line show text_of c parsed

  unfoldable pub run : SocketClient → List Input → SocketClient
  run c [] = c
  run c (input ∷ rest) = run (step c input) rest
