-- ===== src/Prelude/Text.antt =====
-- Go's `strings` functions that the program uses, over the native strings.
use Prim.Native.Nat.{ℕ, zero, suc, ◌-◌}
use Prim.Native.Char.{Char, code}
use Prim.Native.String.{String}
use mathlib.Core.Bool.{Bool, true, false, ◌&&◌, ◌||◌}
use mathlib.Core.Path.{◌≡◌, refl}
use lte_element_manager.Prelude.Tests.{leb, nat_beq, if◌then◌else◌}

-- unicode.IsSpace
is_space : ℕ → Bool
is_space c =
    (leb 9 c && leb c 13)
    || nat_beq c 32
    || nat_beq c 0x85
    || nat_beq c 0xa0
    || nat_beq c 0x1680
    || (leb 0x2000 c && leb c 0x200a)
    || nat_beq c 0x2028
    || nat_beq c 0x2029
    || nat_beq c 0x202f
    || nat_beq c 0x205f
    || nat_beq c 0x3000

is_empty : String → Bool
is_empty String.[] = true
is_empty (String.◌∷◌ c s) = false

trim_left : String → String
trim_left String.[] = String.[]
trim_left (String.◌∷◌ c s) =
    let rest = trim_left s in if is_space (code c) then rest else String.◌∷◌ c s

trim_right : String → String
trim_right String.[] = String.[]
trim_right (String.◌∷◌ c s) =
    let rest = trim_right s in
    if is_empty rest && is_space (code c) then String.[] else String.◌∷◌ c rest

-- strings.TrimSpace
unfoldable pub trim_space : String → String
unfolding trim_left trim_right is_space is_empty
trim_space s = trim_right (trim_left s)

trim_space_test : trim_space " \tcandidate \n" ≡ "candidate"
unfolding trim_space
trim_space_test = refl

nth_char : ℕ → String → Char → Char
nth_char n String.[] other = other
nth_char zero (String.◌∷◌ c s) other = c
nth_char (suc n) (String.◌∷◌ c s) other = nth_char n s other

-- unicode.ToLower on ASCII and on the two other characters that it takes to ASCII letters; every
-- other character is kept.
lower_char : Char → Char
lower_char c =
    let n = code c in
    if leb b'A' n && leb n b'Z'
    then nth_char (n - b'A') "abcdefghijklmnopqrstuvwxyz" c
    else if nat_beq n 0x130
    then nth_char 0 "i" c
    else if nat_beq n 0x212a
    then nth_char 0 "k" c
    else c

-- strings.ToLower
unfoldable pub to_lower : String → String
unfolding lower_char nth_char
to_lower String.[] = String.[]
to_lower (String.◌∷◌ c s) = String.◌∷◌ (lower_char c) (to_lower s)

-- strings.HasPrefix
unfoldable pub has_prefix : String → String → Bool
has_prefix s String.[] = true
has_prefix String.[] (String.◌∷◌ d p) = false
has_prefix (String.◌∷◌ c s) (String.◌∷◌ d p) = nat_beq (code c) (code d) && has_prefix s p

-- strings.Contains
unfoldable pub contains : String → String → Bool
unfolding has_prefix
contains String.[] p = has_prefix String.[] p
contains (String.◌∷◌ c s) p = has_prefix (String.◌∷◌ c s) p || contains s p

to_lower_test : to_lower "NetConf" ≡ "netconf"
unfolding to_lower
to_lower_test = refl

contains_test : (contains "EMS_PROCESS_X" "PROCESS" ≡ true) × (contains "EMS" "PROCESS" ≡ false)
unfolding contains
contains_test = (refl, refl)
