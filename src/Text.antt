-- ===== src/Text.antt =====
-- The functions of Go's packages strings, unicode/utf8 and path/filepath that the handlers call.
use Prim.Native.Char.{code}
use pairly.Prelude.{nat_eq, string_eq, ℕ, suc, String, Bool, ◌||◌, ◌&&◌, ◌==◌, leb, if◌then◌else◌}

-- utf8.RuneCountInString, by which the validator's min and max and VARCHAR(n) measure a text.
abbrev pub rune_count : String → ℕ
rune_count String.[] = 0
rune_count (String.◌∷◌ c s) = suc (rune_count s)

-- unicode.IsSpace
unfoldable pub is_space : ℕ → Bool
is_space c =
    leb 9 c && leb c 13
    || c == 32
    || c == 0x85
    || c == 0xa0
    || c == 0x1680
    || leb 0x2000 c && leb c 0x200a
    || c == 0x2028
    || c == 0x2029
    || c == 0x202f
    || c == 0x205f
    || c == 0x3000

trim_left : String → String
unfolding is_space
trim_left String.[] = String.[]
trim_left (String.◌∷◌ c s) =
    let rest = trim_left s in if is_space (code c) then rest else String.◌∷◌ c s

trim_right : String → String
unfolding is_space
trim_right String.[] = String.[]
trim_right (String.◌∷◌ c s) =
    let rest = trim_right s in
    if rest == "" && is_space (code c) then String.[] else String.◌∷◌ c rest

-- strings.TrimSpace
unfoldable pub trim_space : String → String
unfolding trim_left trim_right
trim_space s = trim_right (trim_left s)
