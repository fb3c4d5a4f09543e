-- ===== src/Configuration/Values.antt =====
-- internal/ems/configuration/store.go: the conversions of a dynamic value, and the key of a QCI
-- profile (renderer.go). The operations of float64 and `json.Number.Float64` are an interface.
use Prim.Native.Char.{Char, code}
use Prim.Native.String.{String}
use lte_element_manager.Prelude.{
  ◌≡◌, refl, ◌%◌, ℕ, zero, suc, ◌+◌, ◌-◌, ◌*◌, ◌^◌, Bool, true, false, not, ◌&&◌, ◌||◌, Option,
  none, some, if◌then◌else◌, nat_beq, leb,
}
use lte_element_manager.Prelude.Int.{ℤ, pos, negsuc, ltb_ℤ, pos_part}

-- An `any`; a float32 is given as the float64 that it converts to.
pub data Val (F : Type 0) : Type 0 where
  text : String → Val F
  float64 : F → Val F
  float32 : F → Val F
  int : ℤ → Val F
  int64 : ℤ → Val F
  int32 : ℤ → Val F
  uint32 : ℕ → Val F
  boolean : Bool → Val F
  number : String → Val F  -- json.Number
  other : Val F

-- float64: `is_finite` is neither NaN nor an infinity, `is_whole` is `math.Trunc(x) == x`, and
-- `to_int` is the conversion of a whole number.
pub record Numbers (F : Type 0) : Type 0 where
  pub is_finite : F → Bool
  pub is_whole : F → Bool
  pub is_below : F → ℤ → Bool
  pub is_above : F → ℤ → Bool
  pub to_int : F → ℤ
  pub of_int : ℤ → F
  pub parse_float : String → Option F

abbrev max_uint32 : ℕ
max_uint32 = 2 ^ 32 - 1

abbrev min_int32 : ℤ
min_int32 = negsuc (2 ^ 31 - 1)

abbrev max_int32 : ℤ
max_int32 = pos (2 ^ 31 - 1)

abbrev is_digit : Char → Bool
is_digit c = leb b'0' (code c) && leb (code c) b'9'

-- A number in decimal digits.
pub digits : ℕ → String → Option ℕ
digits n String.[] = some n
digits n (String.◌∷◌ c s) =
    let rest = digits (10 * n + (code c - b'0')) s in if is_digit c then rest else none

pub parse_nat : String → Option ℕ
unfolding digits
parse_nat String.[] = none
parse_nat (String.◌∷◌ c s) = digits 0 (String.◌∷◌ c s)

abbrev at_most : ℕ → Option ℕ → Option ℕ
at_most b none = none
at_most b (some n) = if leb n b then some n else none

abbrev positive : Option ℕ → Option ℤ
positive none = none
positive (some n) = some (pos n)

abbrev negative : Option ℕ → Option ℤ
negative none = none
negative (some zero) = some (pos 0)
negative (some (suc n)) = some (negsuc n)

-- `strconv.ParseUint(s, 10, 32)`
unfoldable pub parse_uint32 : String → Option ℕ
unfolding parse_nat
parse_uint32 s = at_most max_uint32 (parse_nat s)

-- `strconv.ParseInt(s, 10, 32)`
unfoldable pub parse_int32 : String → Option ℤ
unfolding parse_nat
parse_int32 String.[] = none
parse_int32 (String.◌∷◌ c s) =
    if nat_beq (code c) b'-'
    then negative (at_most (2 ^ 31) (parse_nat s))
    else if nat_beq (code c) b'+'
    then positive (at_most (2 ^ 31 - 1) (parse_nat s))
    else positive (at_most (2 ^ 31 - 1) (parse_nat (String.◌∷◌ c s)))

parse_int32_test : parse_int32 "-2147483648" ≡ some (negsuc 2147483647)
unfolding parse_int32
parse_int32_test = refl

abbrev to_uint32 : ℤ → Option ℕ
to_uint32 (pos n) = if leb n max_uint32 then some n else none
to_uint32 (negsuc n) = none

abbrev to_int32 : ℤ → Option ℤ
to_int32 x = if ltb_ℤ x min_int32 || ltb_ℤ max_int32 x then none else some x

abbrev low_word : ℤ → Option ℕ
low_word (pos n) = some (n % 2 ^ 32)
low_word (negsuc n) = none

module _ {F : Type 0} where
  -- `asString`
  unfoldable pub as_string : Val F → Option String
  as_string (text s) = some s
  as_string _ = none

  module _ (nums : Numbers F) where
    abbrev if_finite : F → Option F
    if_finite x = if nums.is_finite x then some x else none

    -- `asFloat64`
    unfoldable pub as_float64 : Val F → Option F
    as_float64 (float64 x) = if_finite x
    as_float64 (float32 x) = if_finite x
    as_float64 (int x) = some (nums.of_int x)
    as_float64 (int64 x) = some (nums.of_int x)
    as_float64 (number s) = nums.parse_float s
    as_float64 _ = none

    -- `asUint32`; an int has no upper bound here and keeps its low 32 bits.
    unfoldable pub as_uint32 : Val F → Option ℕ
    as_uint32 (float64 x) =
        if nums.is_below x (pos 0) || nums.is_above x (pos max_uint32) || not (nums.is_whole x)
        then none
        else some (pos_part (nums.to_int x))
    as_uint32 (int x) = low_word x
    as_uint32 (int64 x) = to_uint32 x
    as_uint32 (uint32 x) = some x
    as_uint32 (number s) = parse_uint32 s
    as_uint32 _ = none

    -- `asInt32`
    unfoldable pub as_int32 : Val F → Option ℤ
    as_int32 (float64 x) =
        if nums.is_below x min_int32 || nums.is_above x max_int32 || not (nums.is_whole x)
        then none
        else some (nums.to_int x)
    as_int32 (int x) = to_int32 x
    as_int32 (int32 x) = some x
    as_int32 (int64 x) = to_int32 x
    as_int32 (number s) = parse_int32 s
    as_int32 _ = none

-- The text before the first `]` and the text after it.
abbrev prepend : Char → Option (String × String) → Option (String × String)
prepend c none = none
prepend c (some (a, b)) = some (String.◌∷◌ c a, b)

cut_bracket : String → Option (String × String)
cut_bracket String.[] = none
cut_bracket (String.◌∷◌ c s) =
    let rest = cut_bracket s in
    if nat_beq (code c) b']' then some (String.[], s) else prepend c rest

-- The rest after a prefix that is there.
after_prefix : String → String → Option String
after_prefix s String.[] = some s
after_prefix String.[] (String.◌∷◌ d p) = none
after_prefix (String.◌∷◌ c s) (String.◌∷◌ d p) =
    let rest = after_prefix s p in if nat_beq (code c) (code d) then rest else none

-- `isIdentStart` and `isIdent`; no byte of a character beyond ASCII passes.
abbrev is_ident_start : ℕ → Bool
is_ident_start c = (leb b'A' c && leb c b'Z') || (leb b'a' c && leb c b'z') || nat_beq c b'_'

abbrev is_ident : ℕ → Bool
is_ident c = is_ident_start c || (leb b'0' c && leb c b'9')

all_ident : String → Bool
all_ident String.[] = true
all_ident (String.◌∷◌ c s) = is_ident (code c) && all_ident s

abbrev is_empty : String → Bool
is_empty String.[] = true
is_empty (String.◌∷◌ c s) = false

-- The field after `.`, if it is an identifier.
abbrev field_of : String → Option String
field_of String.[] = none
field_of (String.◌∷◌ c s) =
    if nat_beq (code c) b'.' && not (is_empty s) && all_ident s then some s else none

abbrev both {ℓ κ} : {A : Type ℓ} {B : Type κ} → Option A → Option B → Option (A × B)
both none b = none
both (some a) none = none
both (some a) (some b) = some (a, b)

-- `parseQCIProfileKey`: qci_profiles[<qci>].<field>
unfoldable pub parse_qci_profile_key : String → Option (ℤ × String)
unfolding after_prefix cut_bracket all_ident parse_int32
parse_qci_profile_key key = elim (after_prefix key "qci_profiles[") [
  | none ↦ none
  | some rest ↦ elim (cut_bracket rest) [
    | none ↦ none
    | some (index, tail) ↦ if is_empty index then none else both (parse_int32 index) (field_of tail)
  ]
]

qci_key_test : parse_qci_profile_key "qci_profiles[7].discard_timer" ≡ some (pos 7, "discard_timer")
unfolding parse_qci_profile_key
qci_key_test = refl
