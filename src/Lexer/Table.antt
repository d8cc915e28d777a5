-- ===== src/Lexer/Table.antt =====
-- crates/lexer/src/table.rs: first-byte dispatch and the transition table.
pub mod Laws
use thagore.Base.{ℕ, Bool, ◌&&◌, ◌||◌, leb, ◌==◌, if◌then◌else◌}

pub data TokenAction : Type 0 where
  invalid skip_space tab_error newline comment identifier unicode_identifier number : TokenAction
  string plus minus star slash percent equal bang less greater colon comma dot : TokenAction
  l_paren r_paren l_bracket r_bracket : TokenAction

pub data ByteClass : Type 0 where
  space tab newline hash quote digit dot equal minus bang less greater plus star : ByteClass
  slash percent colon comma l_paren r_paren l_bracket r_bracket : ByteClass
  ident_start ident_continue unicode_start unicode_continue eof other : ByteClass

pub data DfaState : Type 0 where
  reject identifier integer fraction_start float string_body string_done string_error : DfaState

pub record ClassifiedByte : Type 0 where
  pub class : ByteClass
  pub width : ℕ

-- `b'0'..=b'9'`
abbrev pub is_digit : ℕ → Bool
is_digit b = leb b'0' b && leb b b'9'

-- `b'a'..=b'z' | b'A'..=b'Z' | b'_'`
abbrev pub is_ident_start : ℕ → Bool
is_ident_start b = leb b'a' b && leb b b'z' || leb b'A' b && leb b b'Z' || b == b'_'

-- The entry of `DISPATCH_TABLE` at a byte.
unfoldable pub dispatch : ℕ → TokenAction
dispatch b =
    if b == b' ' || b == b'\r'
    then TokenAction.skip_space
    else if b == b'\t'
    then TokenAction.tab_error
    else if b == b'\n'
    then TokenAction.newline
    else if b == b'#'
    then TokenAction.comment
    else if b == b'"'
    then TokenAction.string
    else if is_digit b
    then TokenAction.number
    else if is_ident_start b
    then TokenAction.identifier
    else if b == b'+'
    then TokenAction.plus
    else if b == b'-'
    then TokenAction.minus
    else if b == b'*'
    then TokenAction.star
    else if b == b'/'
    then TokenAction.slash
    else if b == b'%'
    then TokenAction.percent
    else if b == b'='
    then TokenAction.equal
    else if b == b'!'
    then TokenAction.bang
    else if b == b'<'
    then TokenAction.less
    else if b == b'>'
    then TokenAction.greater
    else if b == b':'
    then TokenAction.colon
    else if b == b','
    then TokenAction.comma
    else if b == b'.'
    then TokenAction.dot
    else if b == b'('
    then TokenAction.l_paren
    else if b == b')'
    then TokenAction.r_paren
    else if b == b'['
    then TokenAction.l_bracket
    else if b == b']'
    then TokenAction.r_bracket
    else if leb 0x80 b && leb b 0xff
    then TokenAction.unicode_identifier
    else TokenAction.invalid

-- The rows of `DFA_TRANSITIONS`; what `build_dfa_table` does not set is `Reject`.
identifier_row : ByteClass → DfaState
identifier_row ByteClass.ident_start = DfaState.identifier
identifier_row ByteClass.ident_continue = DfaState.identifier
identifier_row ByteClass.unicode_start = DfaState.identifier
identifier_row ByteClass.unicode_continue = DfaState.identifier
identifier_row ByteClass.digit = DfaState.identifier
identifier_row _ = DfaState.reject

integer_row : ByteClass → DfaState
integer_row ByteClass.digit = DfaState.integer
integer_row ByteClass.dot = DfaState.fraction_start
integer_row _ = DfaState.reject

-- The rows of `FractionStart` and of `Float` are alike.
float_row : ByteClass → DfaState
float_row ByteClass.digit = DfaState.float
float_row _ = DfaState.reject

string_row : ByteClass → DfaState
string_row ByteClass.quote = DfaState.string_done
string_row ByteClass.newline = DfaState.string_error
string_row ByteClass.eof = DfaState.string_error
string_row _ = DfaState.string_body

unfoldable pub transition : DfaState → ByteClass → DfaState
unfolding identifier_row integer_row float_row string_row
transition DfaState.identifier c = identifier_row c
transition DfaState.integer c = integer_row c
transition DfaState.fraction_start c = float_row c
transition DfaState.float c = float_row c
transition DfaState.string_body c = string_row c
transition _ c = DfaState.reject
