-- ===== src/Session/Paths.antt =====
-- What src/session/catalog.ts does to the characters of a path.
use Prim.Native.Char.{Char, code}
use Prim.Native.String.{String, [], ◌∷◌}
use mathlib.Core.Bool.{Bool, ◌||◌, ◌&&◌}
use mathlib.Core.Option.{Option, none, some}
use pi_threads.Base.{if◌then◌else◌, ◌==◌}

-- A slash or a backslash.
abbrev is_slash : Char → Bool
is_slash c = code c == 47 || code c == 92

abbrev dash : Char
dash = "-"

-- `replace(/^[/\\]/, "")`
abbrev without_slash : String → String
without_slash [] = []
without_slash (c ∷ s) = if is_slash c then s else c ∷ s

-- `replace(/[/\\:]/g, "-")`
abbrev with_dashes : String → String
with_dashes [] = []
with_dashes (c ∷ s) = (if is_slash c || code c == 58 then dash else c) ∷ with_dashes s

abbrev pub safe_path : String → String
safe_path path = with_dashes (without_slash path)

-- What follows "~/" at the start of a path.
abbrev pub after_tilde : String → Option String
after_tilde [] = none
after_tilde (c ∷ []) = none
after_tilde (c ∷ d ∷ s) = if code c == 126 && code d == 47 then some s else none
