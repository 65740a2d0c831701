-- ===== src/Rooms/Language.antt =====
-- langFromExtension of backend/internal/rooms/helpers_handler.go, on path/filepath's Ext.
use Prim.Native.Char.{code}
use pairly.Prelude.{nat_eq, string_eq, String, Bool, false, ◌||◌, ◌==◌, if◌then◌else◌}

-- Is there a dot or a slash in the text?
unfoldable pub has_dot_or_slash : String → Bool
has_dot_or_slash String.[] = false
has_dot_or_slash (String.◌∷◌ c s) = code c == b'.' || code c == b'/' || has_dot_or_slash s

-- filepath.Ext: from the last dot of the last element on, or nothing.
unfoldable pub ext : String → String
unfolding has_dot_or_slash
ext String.[] = ""
ext (String.◌∷◌ c s) =
    let rest = ext s in
    if has_dot_or_slash s then rest else if code c == b'.' then String.◌∷◌ c s else ""

unfoldable pub lang_from_extension : String → String
unfolding ext
lang_from_extension name =
    let e = ext name in
    if e == ".py"
    then "python"
    else if e == ".js"
    then "javascript"
    else if e == ".ts"
    then "typescript"
    else if e == ".go"
    then "go"
    else if e == ".java"
    then "java"
    else if e == ".c"
    then "c"
    else if e == ".cpp" || e == ".cc"
    then "cpp"
    else if e == ".rs"
    then "rust"
    else if e == ".rb"
    then "ruby"
    else if e == ".php"
    then "php"
    else if e == ".html"
    then "html"
    else if e == ".css"
    then "css"
    else if e == ".json"
    then "json"
    else if e == ".md"
    then "markdown"
    else if e == ".yaml" || e == ".yml"
    then "yaml"
    else if e == ".sh"
    then "shell"
    else "plaintext"
