-- ===== src/Value.antt =====
-- The values that the program reads from and writes to JSON, as `unknown` and `Record<string, any>`.
-- Numbers are the natural ones: the program's counters, times and sizes.
pub mod Texts
use pi_threads.Base.{
  ℕ, String, Bool, true, false, List, [], ◌∷◌, Option, none, some, if◌then◌else◌, str_eq, ◌||◌,
}

mutual
  pub data Value : Type 0 where
    undefined null : Value
    bool : Bool → Value
    num : ℕ → Value
    str : String → Value
    arr : Elems → Value
    obj : Props → Value

  pub data Elems : Type 0 where
    nil : Elems
    cons : Value → Elems → Elems

  pub data Props : Type 0 where
    end : Props
    prop : String → Value → Props → Props

abbrev pub elems : Elems → List Value
elems nil = []
elems (cons v vs) = v ∷ elems vs

abbrev pub get_prop : String → Props → Value
get_prop key end = undefined
get_prop key (prop k v ps) = if str_eq k key then v else get_prop key ps

-- `value.key`; no program text reads a named property of anything but an object.
abbrev pub get : String → Value → Value
get key (obj ps) = get_prop key ps
get key _ = undefined

-- `typeof value === "object" && value !== null && !Array.isArray(value)`
unfoldable pub is_record : Value → Bool
is_record (obj _) = true
is_record _ = false

-- `value && typeof value === "object"`: arrays count.
unfoldable pub is_object : Value → Bool
is_object (obj _) = true
is_object (arr _) = true
is_object _ = false

-- `Array.isArray(value) ? value : []`
abbrev pub array_or_empty : Value → List Value
array_or_empty (arr vs) = elems vs
array_or_empty _ = []

abbrev pub is_text : Value → String → Bool
is_text (str s) t = str_eq s t
is_text _ t = false

abbrev pub is_true : Value → Bool
is_true (bool b) = b
is_true _ = false

-- `typeof value === "string" ? value : undefined`
abbrev pub text_of : Value → Option String
text_of (str s) = some s
text_of _ = none

abbrev pub opt_str : Option String → Value
opt_str none = undefined
opt_str (some s) = str s

abbrev pub opt_num : Option ℕ → Value
opt_num none = undefined
opt_num (some n) = num n

-- `{ ...rest, ...value }`: the properties of the value come first, and a read takes the first.
abbrev put_props : Props → Props → Props
put_props end rest = rest
put_props (prop k v ps) rest = prop k v (put_props ps rest)

abbrev pub spread : Value → Props → Props
spread (obj ps) rest = put_props ps rest
spread _ rest = rest

-- `key in value`, for an object.
abbrev props_have : String → Props → Bool
props_have key end = false
props_have key (prop k _ ps) = str_eq k key || props_have key ps

abbrev pub has_prop : String → Value → Bool
has_prop key (obj ps) = props_have key ps
has_prop key _ = false
