-- ===== src/Service/Messages.antt =====
-- What threadRead and threadMessages show: limitEntries and filterMessages of
-- src/service/pi-threads-service.ts.
use mathlib.Core.List.{reverse}
use pi_threads.Base.{
  ℕ, ◌-◌, String, Bool, true, false, ◌&&◌, List, [], Option, none, some, if◌then◌else◌, str_eq, leb,
  ◌==◌, take, drop, length, filter,
}
use pi_threads.Value.{Value, str, num, undefined, null, get, is_object, is_text}
use pi_threads.Protocol.Errors.{Result, ok, ◌>>=◌}
use pi_threads.Service.Threads.{Texts, parse_since}

-- `slice(-n)` for an `n` above zero.
abbrev pub take_last {ℓ} : {A : Type ℓ} → ℕ → List A → List A
take_last n xs = drop (length xs - n) xs

abbrev pub is_message_entry : Value → Bool
is_message_entry entry = is_object entry && is_text (get "type" entry) "message"

abbrev is_false : Option Bool → Bool
is_false (some false) = true
is_false _ = false

abbrev pub in_order : Option Bool → List Value → List Value
in_order asc messages = if is_false asc then reverse messages else messages

abbrev pub last_entries : Option Bool → Option ℕ → List Value → List Value
last_entries asc none messages = messages
last_entries asc (some last) messages =
    if last == 0
    then []
    else if is_false asc
    then reverse (take last messages)
    else take_last last messages

unfoldable pub limit_entries : Option (List Value) → Option ℕ → Option Bool → Option (List Value)
limit_entries none last asc = none
limit_entries (some entries) last asc =
    some (last_entries asc last (in_order asc (filter is_message_entry entries)))

-- `a ?? b` on values.
abbrev value_or : Value → Value → Value
value_or undefined v = v
value_or null v = v
value_or v _ = v

abbrev pi_role : String → String
pi_role role =
    if str_eq role "tool"
    then "toolResult"
    else if str_eq role "bash"
    then "bashExecution"
    else role

module _ (texts : Texts) where
  abbrev time_of : Value → Option ℕ
  time_of (num n) = some n
  time_of (str s) = texts.parse_date s
  time_of _ = none

  abbrev pub message_timestamp : Value → Option ℕ
  message_timestamp message =
      if is_object message
      then time_of (value_or (get "createdAt" message) (get "timestamp" message))
      else none

  abbrev is_since : ℕ → Option ℕ → Bool
  is_since since none = false
  is_since since (some t) = leb since t

  abbrev pub has_role : Option String → Value → Bool
  has_role none message = true
  has_role (some role) message =
      if str_eq role ""
      then true
      else is_object message && is_text (get "role" message) (pi_role role)

  abbrev pub is_recent_message : Option ℕ → Value → Bool
  is_recent_message none message = true
  is_recent_message (some since) message = is_since since (message_timestamp message)

  abbrev pub last_messages : Option ℕ → List Value → List Value
  last_messages none messages = messages
  last_messages (some last) messages = if last == 0 then [] else take_last last messages

  unfoldable pub filter_messages :
      List Value → Option ℕ → Option String → Option String → Result (List Value)
  filter_messages messages last role since = do
    t ← parse_since texts since
    ok (last_messages last (filter (is_recent_message t) (filter (has_role role) messages)))
