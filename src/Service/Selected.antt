-- ===== src/Service/Selected.antt =====
-- Which model resolveModelSelection of src/service/pi-threads-service.ts chooses.
use pi_threads.Base.{String, true, false, List, ◌∷◌, ◌++◌, Option, none, some, ◌≡◌, All, ◌⊎◌}
use pi_threads.Value.{Value, str, get}
use pi_threads.Protocol.Errors.{Result, ok, err, invalid_params}
use pi_threads.Service.Slash.{split_slash, has_slash}
use pi_threads.Service.Settings.{Selection}

-- A model that the text asks for: with a provider and a model in the text, both are the model's,
-- and else the text is; a model is called by its id or by its name.
abbrev pub IsAsked : String → Option (String × String) → Value → Type 0
IsAsked model none c = (get "id" c ≡ str model) ⊎ (get "name" c ≡ str model)
IsAsked model (some (provider, id)) c =
    (get "provider" c ≡ str provider) × ((get "id" c ≡ str id) ⊎ (get "name" c ≡ str id))

abbrev selection_of : Option (String × String) → Option Selection
selection_of none = none
selection_of (some (provider, id)) = some (record { provider = provider; model_id = id })

-- The first of the models with a property, if there is one.
abbrev pub IsFirst : (Value → Type 0) → List Value → Option Value → Type 0
IsFirst P models none = All (λ m. ¬ P m) models
IsFirst P models (some c) =
    (before : List Value) × (after : List Value) × (models ≡ before ++ c ∷ after)
    × All (λ m. ¬ P m) before
    × P c

-- Nothing to take: no model, or one without a provider or without an id.
abbrev pub IsLacking : Option Value → Type 0
IsLacking none = Unit
IsLacking (some c) = (p i : String) → get "provider" c ≡ str p → get "id" c ≡ str i → ⊥

abbrev pub IsUnlisted : String → List Value → Type 0
IsUnlisted model models =
    (o : Option Value) × IsFirst (IsAsked model (split_slash model)) models o × IsLacking o

-- How a selection ends.
abbrev pub IsSelected : String → List Value → Result Selection → Type 0
IsSelected model models (ok s) =
    ((c : Value) × IsFirst (IsAsked model (split_slash model)) models (some c)
      × (get "provider" c ≡ str s.provider)
      × (get "id" c ≡ str s.model_id))
    ⊎ ((split_slash model ≡ some (s.provider, s.model_id))
        × (has_slash s.model_id ≡ false)
        × IsUnlisted model models)
IsSelected model models (err error) =
    (error.code ≡ invalid_params)
    × (((provider : String) × (id : String) × (split_slash model ≡ some (provider, id))
          × ((provider ≡ "") ⊎ (id ≡ "")))
        ⊎ (IsUnlisted model models
            × ((split_slash model ≡ none)
                ⊎ ((provider : String) × (id : String) × (split_slash model ≡ some (provider, id))
                    × (has_slash id ≡ true)))))
