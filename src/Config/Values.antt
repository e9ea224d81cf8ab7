-- ===== src/Config/Values.antt =====
-- What JSON.parse makes of the file that src/config.ts reads, and reading and spreading it.
use pi_threads.Base.{ℕ, String, Bool, true, false, Option, none, some, if◌then◌else◌, ltb, str_eq}

-- A number: natural, or `-1 - n`, or strictly between a whole number and the next, with its sign.
pub data Number : Type 0 where
  natural negative : ℕ → Number
  fraction : (is_negative : Bool) (whole : ℕ) → Number

mutual
  pub data Json : Type 0 where
    undefined null : Json
    bool : Bool → Json
    num : Number → Json
    str : String → Json
    arr : Elements → Json
    obj : Fields → Json

  pub data Elements : Type 0 where
    nil : Elements
    cons : Json → Elements → Elements

  pub data Fields : Type 0 where
    end : Fields
    field : String → Json → Fields → Fields

abbrev pub get_field : String → Fields → Json
get_field key end = undefined
get_field key (field k v fs) = if str_eq k key then v else get_field key fs

abbrev pub get : String → Json → Json
get key (obj fs) = get_field key fs
get key _ = undefined

abbrev pub text_of : Json → Option String
text_of (str s) = some s
text_of _ = none

abbrev pub fields_of : Json → Fields
fields_of (obj fs) = fs
fields_of _ = end

abbrev join_fields : Fields → Fields → Fields
join_fields end rest = rest
join_fields (field k v fs) rest = field k v (join_fields fs rest)

-- `{ ...base, ...override }`: the fields that are written last come first, and a read takes the
-- first.
abbrev pub merge : Json → Json → Json
merge base override = obj (join_fields (fields_of override) (fields_of base))

-- `Number.isSafeInteger`
abbrev pub is_safe_integer : Json → Bool
is_safe_integer (num (natural n)) = ltb n 9_007_199_254_740_992
is_safe_integer (num (negative n)) = ltb n 9_007_199_254_740_991
is_safe_integer _ = false

-- `n < bound`, for a number.
abbrev pub is_below : Json → ℕ → Bool
is_below (num (natural n)) bound = ltb n bound
is_below (num (negative n)) bound = true
is_below (num (fraction true whole)) bound = true
is_below (num (fraction false whole)) bound = ltb whole bound
is_below _ bound = false

-- The value of a number that is natural.
abbrev pub number : Json → ℕ
number (num (natural n)) = n
number _ = 0

abbrev pub count_of : Json → Option ℕ
count_of (num (natural n)) = some n
count_of _ = none
