-- ===== src/Parser/Kinds.antt =====
-- The classes of token kinds that the parser asks for: crates/parser/src/error.rs and parser.rs, and
-- `is_builtin_type` of crates/lexer/src/token.rs.
use thagore.Base.{ℕ, Bool, true, false, ◌==◌}
use thagore.Lexer.Token.{TokenKind}

-- The derived equality of `TokenKind`.
abbrev kind_index : TokenKind → ℕ
kind_index TokenKind.identifier = 0
kind_index TokenKind.integer = 1
kind_index TokenKind.float = 2
kind_index TokenKind.string = 3
kind_index TokenKind.kw_let = 4
kind_index TokenKind.kw_func = 5
kind_index TokenKind.kw_if = 6
kind_index TokenKind.kw_else = 7
kind_index TokenKind.kw_while = 8
kind_index TokenKind.kw_for = 9
kind_index TokenKind.kw_return = 10
kind_index TokenKind.kw_const = 11
kind_index TokenKind.kw_from = 12
kind_index TokenKind.kw_import = 13
kind_index TokenKind.kw_include = 14
kind_index TokenKind.kw_extern = 15
kind_index TokenKind.kw_struct = 16
kind_index TokenKind.kw_impl = 17
kind_index TokenKind.kw_intent = 18
kind_index TokenKind.kw_flow = 19
kind_index TokenKind.kw_i32 = 20
kind_index TokenKind.kw_f32 = 21
kind_index TokenKind.kw_bool = 22
kind_index TokenKind.kw_str = 23
kind_index TokenKind.plus = 24
kind_index TokenKind.minus = 25
kind_index TokenKind.star = 26
kind_index TokenKind.slash = 27
kind_index TokenKind.percent = 28
kind_index TokenKind.eq_eq = 29
kind_index TokenKind.bang_eq = 30
kind_index TokenKind.lt = 31
kind_index TokenKind.gt = 32
kind_index TokenKind.lt_eq = 33
kind_index TokenKind.gt_eq = 34
kind_index TokenKind.assign = 35
kind_index TokenKind.arrow = 36
kind_index TokenKind.colon = 37
kind_index TokenKind.comma = 38
kind_index TokenKind.dot = 39
kind_index TokenKind.l_paren = 40
kind_index TokenKind.r_paren = 41
kind_index TokenKind.l_bracket = 42
kind_index TokenKind.r_bracket = 43
kind_index TokenKind.newline = 44
kind_index TokenKind.indent = 45
kind_index TokenKind.dedent = 46
kind_index TokenKind.eof = 47
kind_index TokenKind.error = 48

unfoldable pub kind_is : TokenKind → TokenKind → Bool
kind_is wanted kind = kind_index kind == kind_index wanted

abbrev pub is_statement_boundary : TokenKind → Bool
is_statement_boundary TokenKind.newline = true
is_statement_boundary TokenKind.dedent = true
is_statement_boundary TokenKind.eof = true
is_statement_boundary _ = false

abbrev pub is_expr_terminator : TokenKind → Bool
is_expr_terminator TokenKind.newline = true
is_expr_terminator TokenKind.dedent = true
is_expr_terminator TokenKind.eof = true
is_expr_terminator TokenKind.colon = true
is_expr_terminator TokenKind.comma = true
is_expr_terminator TokenKind.r_paren = true
is_expr_terminator TokenKind.r_bracket = true
is_expr_terminator _ = false

abbrev pub is_builtin_type : TokenKind → Bool
is_builtin_type TokenKind.kw_i32 = true
is_builtin_type TokenKind.kw_f32 = true
is_builtin_type TokenKind.kw_bool = true
is_builtin_type TokenKind.kw_str = true
is_builtin_type _ = false

abbrev pub token_can_name_value : TokenKind → Bool
token_can_name_value TokenKind.identifier = true
token_can_name_value TokenKind.kw_from = true
token_can_name_value TokenKind.kw_include = true
token_can_name_value _ = false
