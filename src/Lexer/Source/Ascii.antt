-- ===== src/Lexer/Source/Ascii.antt =====
-- Texts of ASCII bytes, which are what the lexer relies on.
use thagore.Base.{
  ℕ, zero, suc, ◌+◌, ◌<◌, ◌≡◌, Bool, true, [], ◌∷◌, some, ltb, ◌&&◌, get_elem?, length, arith,
  get_elem?-Found, Option-cases, inl, inr,
}
use thagore.Lexer.Source.Boundary.{IsStr}
use thagore.Lexer.Source.{Bytes, is_char_boundary, lead_width}

unfoldable pub is_ascii : Bytes → Bool
is_ascii [] = true
is_ascii (b ∷ bytes) = ltb b 0x80 && is_ascii bytes

pub is_ascii-lt :
    (bytes : Bytes) (i b : ℕ) → is_ascii bytes ≡ true → get_elem? bytes i ≡ some b → b < 0x80
unfolding is_ascii
is_ascii-lt [] i b h e = cc
is_ascii-lt (c ∷ bytes) zero b h e = ground arith
is_ascii-lt (c ∷ bytes) (suc i) b h e = ground (arith, is_ascii-lt bytes i b)

-- Every offset up to the end is a boundary.
boundary_everywhere :
    (bytes : Bytes) (i : ℕ)
    → is_ascii bytes ≡ true
    → i < length bytes + 1
    → is_char_boundary bytes i ≡ true
unfolding is_char_boundary
boundary_everywhere bytes i h lt = elim (Option-cases (get_elem? bytes i)) [
  | inl e ↦ ground (arith, get_elem?-Found bytes i)
  | inr (b, e) ↦ ground (arith, is_ascii-lt bytes i b h e)
]

pub is_ascii-IsStr : (bytes : Bytes) → is_ascii bytes ≡ true → IsStr bytes
unfolding lead_width
is_ascii-IsStr bytes h = record {
  starts = boundary_everywhere bytes 0 h (omega arith);
  is_byte = λ i b e. omega (arith, is_ascii-lt bytes i b h e);
  next_boundary = λ i b e k.
      boundary_everywhere bytes (i + lead_width b) h
        (ground (arith, is_ascii-lt bytes i b h e, get_elem?-Found bytes i));
}
