-- ===== src/Executor/Paths.antt =====
-- filepath.Join as backend/internal/executor/builder.go calls it.
use Prim.Native.Char.{Char, code}
use pairly.Prelude.{
  String, ◌≡◌, refl, Bool, true, false, not, ◌&&◌, ◌||◌, List, [], ◌∷◌, arith, if◌then◌else◌,
  string_eq, nat_eq, ◌==◌,
}

-- An absolute path by its elements, the last one first.
abbrev pub FilePath : Type 0
FilePath = List String

-- s + t
abbrev pub concat : String → String → String
concat String.[] t = t
concat (String.◌∷◌ c s) t = String.◌∷◌ c (concat s t)

unfoldable pub cons_first : Char → List String → List String
cons_first c [] = String.◌∷◌ c String.[] ∷ []
cons_first c (s ∷ ss) = String.◌∷◌ c s ∷ ss

-- The elements of a text between its slashes.
unfoldable pub split_slash : String → List String
split_slash String.[] = "" ∷ []
split_slash (String.◌∷◌ c s) =
    let rest = split_slash s in if code c == 47 then "" ∷ rest else cons_first c rest

-- filepath.Clean: an empty element and "." are dropped, ".." takes the element before it.
unfoldable pub push : String → FilePath → FilePath
push s path =
    if s == "" || s == "."
    then path
    else if s == ".."
    then elim path [ [] ↦ [] | e ∷ es ↦ es ]
    else s ∷ path

unfoldable pub push_all : List String → FilePath → FilePath
push_all [] path = path
push_all (s ∷ ss) path = push_all ss (push s path)

unfoldable pub join : FilePath → String → FilePath
join path name = push_all (split_slash name) path

unfoldable pub no_slash : String → Bool
no_slash String.[] = true
no_slash (String.◌∷◌ c s) = not (code c == 47) && no_slash s

-- A name that is one element of a path.
unfoldable pub is_plain : String → Bool
is_plain name = no_slash name && not (name == "" || name == "." || name == "..")

-- The path is the directory or lies below it.
pub data IsUnder (dir : FilePath) : FilePath → Type 0 where
  self : IsUnder dir dir
  below : {path : FilePath} (s : String) → IsUnder dir path → IsUnder dir (s ∷ path)

and_left : (a b : Bool) → (a && b) ≡ true → a ≡ true
and_left true b h = refl
and_left false b h = absurd (ground arith)

split_slash-plain : (s : String) → no_slash s ≡ true → split_slash s ≡ s ∷ []
unfolding split_slash no_slash cons_first
split_slash-plain String.[] h = refl
split_slash-plain (String.◌∷◌ c s) h = ground (arith, split_slash-plain s)

pub join-plain :
    (path : FilePath) (name : String) → is_plain name ≡ true → join path name ≡ name ∷ path
unfolding join push_all push is_plain
join-plain path name h = rw (split_slash-plain name (and_left (no_slash name) _ h)) (ground arith)

-- strings.TrimPrefix, where `whole` is the text
unfoldable pub trim_prefix : String → String → String → String
trim_prefix whole String.[] text = text
trim_prefix whole (String.◌∷◌ c s) String.[] = whole
trim_prefix whole (String.◌∷◌ c s) (String.◌∷◌ d t) =
    let rest = trim_prefix whole s t in if code c == code d then rest else whole

-- The text of a path: a slash before each element.
unfoldable pub path_text : FilePath → String
path_text [] = ""
path_text (e ∷ path) = concat (path_text path) (concat "/" e)
