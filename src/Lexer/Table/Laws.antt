-- ===== src/Lexer/Table/Laws.antt =====
-- What the dispatch table of crates/lexer/src/table.rs tells of a byte.
use thagore.Base.{ℕ, ◌≤◌, ◌<◌, ◌≡◌, true, arith}
use thagore.Lexer.Table.{TokenAction, is_digit, is_ident_start, dispatch}

-- The bytes at which an action is taken.
abbrev pub Starts : TokenAction → ℕ → Type 0
Starts TokenAction.identifier b = is_ident_start b ≡ true
Starts TokenAction.unicode_identifier b = (0x80 ≤ b) × (b ≤ 0xff)
Starts TokenAction.number b = is_digit b ≡ true
Starts TokenAction.invalid b = Unit
Starts TokenAction.comment b = b ≡ b'#'
Starts TokenAction.newline b = b ≡ b'\n'
Starts _ b = b < 0x80

pub dispatch-Starts : (b : ℕ) → Starts (dispatch b) b
unfolding dispatch
dispatch-Starts b = ground arith
