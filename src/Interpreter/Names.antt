-- ===== src/Interpreter/Names.antt =====
-- crates/interpreter/src/eval.rs: what the evaluator does with texts.
use Prim.Native.Char.{Char, code}
use Prim.Native.String.{String}
use Prim.Native.String as Str
use thagore.Base.{ℕ, ◌-◌, Bool, true, false, Option, none, some, ◌==◌, if◌then◌else◌}

-- What a backslash and the character make.
abbrev pub escaped : Char → String
escaped c =
    if code c == 110
    then "\n"
    else if code c == 114
    then "\r"
    else if code c == 116
    then "\t"
    else if code c == 34
    then "\""
    else if code c == 92
    then "\\"
    else Str.◌++◌ "\\" (Str.◌∷◌ c "")

-- The rest of `unescape_string`, behind a backslash or not.
unfoldable pub unescape_from : Bool → String → String
unescape_from false String.[] = ""
unescape_from true String.[] = "\\"
unescape_from false (String.◌∷◌ c s) =
    let rest = unescape_from (code c == 92) s in if code c == 92 then rest else Str.◌∷◌ c rest
unescape_from true (String.◌∷◌ c s) = Str.◌++◌ (escaped c) (unescape_from false s)

abbrev pub unescape : String → String
unescape s = unescape_from false s

unfoldable pub behind_last_dot : String → Option String
behind_last_dot String.[] = none
behind_last_dot (String.◌∷◌ c s) = elim (behind_last_dot s) [
  | some t ↦ some t
  | none ↦ if code c == 46 then some s else none
]

-- `split('.').next_back()`
abbrev pub last_segment : String → String
last_segment s = elim (behind_last_dot s) [ some t ↦ t | none ↦ s ]

-- `chars().nth(n)` as a text, empty where there is none
unfoldable pub nth_char : ℕ → String → String
nth_char n String.[] = ""
nth_char n (String.◌∷◌ c s) = let rest = nth_char (n - 1) s in if n == 0 then Str.◌∷◌ c "" else rest
