-- ===== src/Lexer/Keywords.antt =====
-- crates/lexer/src/lexer.rs: the `KEYWORDS` map, from the bytes of a word to its token kind.
pub mod Laws
use Prim.Native.Char.{code}
use Prim.Native.String.{String}
use thagore.Base.{Bool, true, false, ◌&&◌, List, [], ◌∷◌, Option, none, some, ◌==◌, if◌then◌else◌}
use thagore.Lexer.Source.{Bytes}
use thagore.Lexer.Token.{TokenKind}

-- The bytes of an ASCII text.
abbrev pub codes : String → Bytes
codes String.[] = []
codes (String.◌∷◌ c s) = code c ∷ codes s

unfoldable pub bytes_eq : Bytes → Bytes → Bool
bytes_eq [] [] = true
bytes_eq (x ∷ xs) (y ∷ ys) = x == y && bytes_eq xs ys
bytes_eq _ _ = false

abbrev pub keywords : List (Bytes × TokenKind)
keywords =
    (codes "let", TokenKind.kw_let)
    ∷ (codes "func", TokenKind.kw_func)
    ∷ (codes "if", TokenKind.kw_if)
    ∷ (codes "else", TokenKind.kw_else)
    ∷ (codes "while", TokenKind.kw_while)
    ∷ (codes "for", TokenKind.kw_for)
    ∷ (codes "return", TokenKind.kw_return)
    ∷ (codes "const", TokenKind.kw_const)
    ∷ (codes "from", TokenKind.kw_from)
    ∷ (codes "import", TokenKind.kw_import)
    ∷ (codes "include", TokenKind.kw_include)
    ∷ (codes "extern", TokenKind.kw_extern)
    ∷ (codes "struct", TokenKind.kw_struct)
    ∷ (codes "impl", TokenKind.kw_impl)
    ∷ (codes "intent", TokenKind.kw_intent)
    ∷ (codes "flow", TokenKind.kw_flow)
    ∷ (codes "i32", TokenKind.kw_i32)
    ∷ (codes "f32", TokenKind.kw_f32)
    ∷ (codes "bool", TokenKind.kw_bool)
    ∷ (codes "str", TokenKind.kw_str)
    ∷ []

pub find_keyword : List (Bytes × TokenKind) → Bytes → Option TokenKind
find_keyword [] word = none
find_keyword ((name, kind) ∷ rest) word =
    if bytes_eq name word then some kind else find_keyword rest word

-- `KEYWORDS.get(text)`
unfoldable pub keyword : Bytes → Option TokenKind
unfolding find_keyword bytes_eq
keyword word = find_keyword keywords word
