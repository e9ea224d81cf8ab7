-- ===== src/Service/Settings.antt =====
-- What src/service/pi-threads-service.ts tells a worker before a turn, and reads of its answers:
-- applySettings, resolveModelSelection and withDefaults, with src/worker/input-disposition.ts.
use pi_threads.Base.{
  String, Bool, not, ◌&&◌, ◌||◌, List, [], ◌∷◌, ◌++◌, Option, none, some, find, if◌then◌else◌,
  str_eq, or_else,
}
use pi_threads.Value.{Value, str, obj, prop, end, get, is_text, is_object, text_of, array_or_empty}
use pi_threads.Protocol.Errors.{Result, ok, err, throw, pi_rpc_error, invalid_params}
use pi_threads.Service.Slash.{split_slash, has_slash}

pub data Disposition : Type 0 where
  started queued handled : Disposition

abbrev pub disposition_of : Option String → Result Disposition
disposition_of none = throw pi_rpc_error "Pi RPC response is missing a valid input disposition"
disposition_of (some d) =
    if str_eq d "started"
    then ok started
    else if str_eq d "queued"
    then ok queued
    else if str_eq d "handled"
    then ok handled
    else throw pi_rpc_error "Pi RPC response is missing a valid input disposition"

unfoldable pub prompt_disposition : Value → Result Disposition
prompt_disposition response =
    let data_of = get "data" response in
    disposition_of (if is_object data_of then text_of (get "disposition" data_of) else none)

abbrev pub not_started : Result Disposition → Result Disposition
not_started (ok started) = throw pi_rpc_error "Pi RPC queue response has an invalid disposition"
not_started r = r

unfoldable pub queue_disposition : Value → Result Disposition
queue_disposition response = not_started (prompt_disposition response)

-- The part of the parameters that `withDefaults` and `applySettings` read.
pub record Settings : Type 0 where
  pub model : Option String
  pub thinking : Option String

abbrev pub with_defaults : Settings → Settings → Settings
with_defaults params defaults = record {
  model = or_else params.model defaults.model;
  thinking = or_else params.thinking defaults.thinking;
}

pub record Selection : Type 0 where
  pub provider : String
  pub model_id : String

abbrev pub is_full : String → Bool
is_full s = not (str_eq s "")

-- The provider and the model that a text with a slash names.
abbrev pub explicit_parts : Option (String × String) → Result (Option Selection)
explicit_parts none = ok none
explicit_parts (some (provider, model)) =
    if not (is_full provider) || not (is_full model)
    then throw invalid_params "Model must be provider/modelId"
    else ok (some (record { provider = provider; model_id = model }))

abbrev pub is_match : String → Option Selection → Value → Bool
is_match model none candidate =
    is_text (get "id" candidate) model || is_text (get "name" candidate) model
is_match model (some e) candidate =
    is_text (get "provider" candidate) e.provider
    && (is_text (get "id" candidate) e.model_id || is_text (get "name" candidate) e.model_id)

abbrev unknown_model : Result Selection
unknown_model =
    throw invalid_params "Model must be provider/modelId or match a configured Pi model id"

abbrev pub unmatched : Option Selection → Result Selection
unmatched none = unknown_model
unmatched (some e) = if has_slash e.model_id then unknown_model else ok e

abbrev pub named : Option Selection → Option String → Option String → Result Selection
named explicit (some provider) (some id) = ok (record { provider = provider; model_id = id })
named explicit _ _ = unmatched explicit

abbrev pub matched : Option Selection → Option Value → Result Selection
matched explicit none = unmatched explicit
matched explicit (some candidate) =
    named explicit (text_of (get "provider" candidate)) (text_of (get "id" candidate))

abbrev pub select_among : String → List Value → Result (Option Selection) → Result Selection
select_among model models (err error) = err error
select_among model models (ok explicit) = matched explicit (find (is_match model explicit) models)

-- `resolveModelSelection` with the answer to get_available_models; a text that it refuses at once is
-- refused without asking.
unfoldable pub resolve_model_selection : String → Value → Result Selection
resolve_model_selection model response =
    select_among model (array_or_empty (get "models" (get "data" response)))
      (explicit_parts (split_slash model))

-- `applyResolvedSettings`: its commands, in order.
abbrev pub model_command : Option Selection → List Value
model_command none = []
model_command (some s) =
    obj (
      prop "type" (str "set_model")
        (prop "provider" (str s.provider) (prop "modelId" (str s.model_id) end)))
    ∷ []

abbrev pub thinking_command : Option String → List Value
thinking_command none = []
thinking_command (some level) =
    if is_full level
    then obj (prop "type" (str "set_thinking_level") (prop "level" (str level) end)) ∷ []
    else []

abbrev pub resolved_commands : Option Selection → Option String → List Value
resolved_commands model thinking = model_command model ++ thinking_command thinking
