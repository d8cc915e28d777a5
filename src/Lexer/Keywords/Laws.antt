-- ===== src/Lexer/Keywords/Laws.antt =====
-- What a lookup in `KEYWORDS` tells (crates/lexer/src/lexer.rs).
use thagore.Base.{List, [], ◌∷◌, ◌≡◌, refl, ◌↔◌, ◌⊎◌, Bool, true, some, ◌&&◌, not, arith}
use thagore.Lexer.Keywords.{bytes_eq, keywords, find_keyword, keyword}
use thagore.Lexer.Source.{Bytes}
use thagore.Lexer.Token.{TokenKind, is_keyword}

pub bytes_eq_iff : (a b : Bytes) → (bytes_eq a b ≡ true) ↔ (a ≡ b)
unfolding bytes_eq
bytes_eq_iff (x ∷ a) (y ∷ b) = ground (arith, bytes_eq_iff a b)
bytes_eq_iff _ _ = ground arith

-- An entry of the table with the given word and kind.
abbrev pub Entry : List (Bytes × TokenKind) → Bytes → TokenKind → Type 0
Entry [] word kind = ⊥
Entry ((name, k) ∷ rest) word kind = ((name ≡ word) × (k ≡ kind)) ⊎ Entry rest word kind

find_keyword-Entry :
    (table : List (Bytes × TokenKind)) (word : Bytes) (kind : TokenKind)
    → find_keyword table word ≡ some kind
    → Entry table word kind
unfolding find_keyword
find_keyword-Entry [] word kind h = cc
find_keyword-Entry ((name, k) ∷ rest) word kind h =
    ground (arith, bytes_eq_iff name word, find_keyword-Entry rest word kind)

all_reserved : List (Bytes × TokenKind) → Bool
all_reserved [] = true
all_reserved ((name, kind) ∷ rest) = is_keyword kind && all_reserved rest

find_keyword-is_keyword :
    (table : List (Bytes × TokenKind)) (word : Bytes) {kind : TokenKind}
    → all_reserved table ≡ true
    → find_keyword table word ≡ some kind
    → is_keyword kind ≡ true
unfolding find_keyword all_reserved
find_keyword-is_keyword [] word a h = cc
find_keyword-is_keyword ((name, k) ∷ rest) word {kind} a h =
    ground (arith, find_keyword-is_keyword rest word {kind = kind})

-- Every kind that the lookup gives is a reserved word.
pub keyword-is_keyword :
    (word : Bytes) {kind : TokenKind} → keyword word ≡ some kind → is_keyword kind ≡ true
unfolding keyword is_keyword all_reserved
keyword-is_keyword word h = find_keyword-is_keyword keywords word refl h

-- No entry of the table is for the word.
fresh : Bytes → List (Bytes × TokenKind) → Bool
fresh word [] = true
fresh word ((name, kind) ∷ rest) = not (bytes_eq name word) && fresh word rest

distinct : List (Bytes × TokenKind) → Bool
distinct [] = true
distinct ((name, kind) ∷ rest) = fresh name rest && distinct rest

fresh-not-Entry :
    (word : Bytes) (table : List (Bytes × TokenKind)) (kind : TokenKind)
    → fresh word table ≡ true
    → Entry table word kind
    → ⊥
unfolding fresh
fresh-not-Entry word [] kind f e = e
fresh-not-Entry word ((name, k) ∷ rest) kind f e =
    ground (arith, bytes_eq_iff name word, fresh-not-Entry word rest kind)

find_keyword_of_Entry :
    (table : List (Bytes × TokenKind)) (word : Bytes) (kind : TokenKind)
    → distinct table ≡ true
    → Entry table word kind
    → find_keyword table word ≡ some kind
unfolding find_keyword distinct
find_keyword_of_Entry [] word kind d e = absurd e
find_keyword_of_Entry ((name, k) ∷ rest) word kind d e = ground (
  arith,
  bytes_eq_iff name word,
  fresh-not-Entry name rest kind,
  find_keyword_of_Entry rest word kind,
)

-- `KEYWORDS` is a map: the lookup gives the kind of each entry.
pub keyword_iff :
    (word : Bytes) (kind : TokenKind) → (keyword word ≡ some kind) ↔ Entry keywords word kind
unfolding keyword distinct fresh bytes_eq
keyword_iff word kind =
    (find_keyword-Entry keywords word kind, find_keyword_of_Entry keywords word kind refl)
