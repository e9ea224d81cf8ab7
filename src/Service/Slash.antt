-- ===== src/Service/Slash.antt =====
-- A text split at its first slash, as `indexOf("/")` and two calls of `slice` do.
use Prim.Native.Char.{Char, code}
use Prim.Native.String.{String, [], ◌∷◌}
use mathlib.Core.Bool.{Bool, false, ◌||◌}
use mathlib.Core.Option.{Option, none, some}
use pi_threads.Base.{if◌then◌else◌, ◌==◌}

abbrev before : Char → Option (String × String) → Option (String × String)
before c none = none
before c (some (left, right)) = some (c ∷ left, right)

abbrev pub split_slash : String → Option (String × String)
split_slash [] = none
split_slash (c ∷ s) =
    let rest = split_slash s in if code c == 47 then some ([], s) else before c rest

-- `includes("/")`
abbrev pub has_slash : String → Bool
has_slash [] = false
has_slash (c ∷ s) = code c == 47 || has_slash s
