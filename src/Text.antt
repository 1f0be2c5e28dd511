-- ===== src/Text.antt =====
-- Go's strings, as the code uses them: package strings (TrimSpace, Split, HasPrefix), strconv
-- (Itoa, Atoi) and the verbs %s and %d of fmt. A string is the sequence of its code points.
pub mod Decimal
pub mod Ip
pub mod Parts
mod Tests
use Prim.Native.Char.{Char, code}
use Prim.Native.String.{◌++◌}
use mystic_hypervisor.Prelude.{
  ℕ, String, ◌+◌, ◌-◌, map, Bool, true, false, ◌&&◌, ◌||◌, List, [], ◌∷◌, ltb, leb, ◌==◌, nat_eq,
  string_eq, if◌then◌else◌,
}

-- The code points of a text.
abbrev pub codes : String → List ℕ
codes String.[] = []
codes (String.◌∷◌ c s) = code c ∷ codes s

-- A text put together from its parts, as by Sprintf.
unfoldable pub sprint : List String → String
sprint [] = ""
sprint (s ∷ ss) = s ++ sprint ss

-- unicode.IsSpace: the white space of Latin-1, and the Unicode property beyond it.
unfoldable pub is_space : ℕ → Bool
is_space c =
    (leb 9 c && leb c 13)
    || c == 32
    || c == 0x85
    || c == 0xa0
    || c == 0x1680
    || (leb 0x2000 c && leb c 0x200a)
    || c == 0x2028
    || c == 0x2029
    || c == 0x202f
    || c == 0x205f
    || c == 0x3000

unfoldable pub trim_left : String → String
unfolding is_space
trim_left String.[] = ""
trim_left (String.◌∷◌ c s) = if is_space (code c) then trim_left s else String.◌∷◌ c s

unfoldable pub trim_right : String → String
unfolding is_space
trim_right String.[] = ""
trim_right (String.◌∷◌ c s) =
    let rest = trim_right s in if is_space (code c) && rest == "" then "" else String.◌∷◌ c rest

-- strings.TrimSpace
unfoldable pub trim_space : String → String
unfolding trim_left trim_right
trim_space s = trim_right (trim_left s)

-- strings.ToUpper and strings.ToLower on a code point below 128. Where the code uses them it
-- compares the result with a word of ASCII letters that no other code point is mapped to.
unfoldable pub to_upper : ℕ → ℕ
to_upper c = if leb b'a' c && leb c b'z' then c - 32 else c

unfoldable pub to_lower : ℕ → ℕ
to_lower c = if leb b'A' c && leb c b'Z' then c + 32 else c

unfoldable pub codes_beq : List ℕ → List ℕ → Bool
codes_beq [] [] = true
codes_beq (c ∷ s) (d ∷ t) = c == d && codes_beq s t
codes_beq _ _ = false

-- `strings.ToUpper(s) == word` and `strings.ToLower(s) == word`
unfoldable pub upper_is : String → String → Bool
unfolding codes_beq to_upper
upper_is s word = codes_beq (map to_upper (codes s)) (codes word)

unfoldable pub lower_is : String → String → Bool
unfolding codes_beq to_lower
lower_is s word = codes_beq (map to_lower (codes s)) (codes word)
