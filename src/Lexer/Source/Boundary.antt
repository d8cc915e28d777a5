-- ===== src/Lexer/Source/Boundary.antt =====
-- Character boundaries of a text (crates/lexer/src/lexer.rs slices `source` at offsets that have
-- to be boundaries).
use Prim.Native.Nat.{max}
use thagore.Base.{
  ℕ, ◌+◌, ◌≤◌, ◌<◌, ◌≡◌, refl, true, [], ◌∷◌, none, some, get_elem?, length, inl, inr, Option-cases,
  arith, length-le_of_get_elem?, lt-length_of_get_elem?,
}
use thagore.Lexer.Source.{Bytes, lead_width, current_width_at, is_char_boundary}

-- What the lexer relies on of a Rust `str`: it starts at a boundary, is made of bytes, and behind a
-- character stands a boundary again.
pub record IsStr (bytes : Bytes) : Type 0 where
  pub starts : is_char_boundary bytes 0 ≡ true
  pub is_byte : (i b : ℕ) → get_elem? bytes i ≡ some b → b < 256
  pub next_boundary :
      (i b : ℕ)
      → get_elem? bytes i ≡ some b
      → is_char_boundary bytes i ≡ true
      → is_char_boundary bytes (i + lead_width b) ≡ true

pub is_char_boundary-le :
    (bytes : Bytes) (i : ℕ) → is_char_boundary bytes i ≡ true → i ≤ length bytes
unfolding is_char_boundary
is_char_boundary-le bytes i h = elim (Option-cases (get_elem? bytes i)) [
  | inl e ↦ ground (arith, length-le_of_get_elem? bytes i e)
  | inr (b, e) ↦ omega (arith, lt-length_of_get_elem? bytes i e)
]

get_elem?-length : (bytes : Bytes) → get_elem? bytes (length bytes) ≡ none
get_elem?-length [] = refl
get_elem?-length (b ∷ bytes) = get_elem?-length bytes

pub lead_width_pos : (b : ℕ) → 1 ≤ lead_width b
unfolding lead_width
lead_width_pos b = ground arith

pub lead_width-ascii : (b : ℕ) → b < 0x80 → lead_width b ≡ 1
unfolding lead_width
lead_width-ascii b h = ground arith

-- The width that the loops step by.
pub max-current_width_at :
    (bytes : Bytes) (i : ℕ) {b : ℕ}
    → get_elem? bytes i ≡ some b
    → max (current_width_at bytes i) 1 ≡ lead_width b
unfolding current_width_at
max-current_width_at bytes i {b} e = rw (e, current_width_at) (omega (arith, lead_width_pos b))

-- An offset behind `i` at which a character starts, or the end.
pub record Reaches (bytes : Bytes) (i j : ℕ) : Type 0 where
  pub after : i ≤ j
  pub boundary : is_char_boundary bytes j ≡ true

pub Reaches-refl : (bytes : Bytes) (i : ℕ) → is_char_boundary bytes i ≡ true → Reaches bytes i i
Reaches-refl bytes i h = record { after = omega arith; boundary = h }

pub Reaches-trans : {bytes : Bytes} {i j k : ℕ} → i ≤ j → Reaches bytes j k → Reaches bytes i k
Reaches-trans h r = record { after = omega (arith, r.after); boundary = r.boundary }

-- What a character at a boundary tells of the offsets behind it.
abbrev pub Character : Bytes → ℕ → Type 0
Character bytes i = elim (get_elem? bytes i) [
  | none ↦ Unit
  | some b ↦
      (is_char_boundary bytes (i + lead_width b) ≡ true)
      × (1 ≤ lead_width b)
      × (max (current_width_at bytes i) 1 ≡ lead_width b)
      × (b < 0x80 → lead_width b ≡ 1)
      × (b < 256)
]

pub boundary-Character :
    (bytes : Bytes) → IsStr bytes → (i : ℕ) → is_char_boundary bytes i ≡ true → Character bytes i
boundary-Character bytes str i h = elim (Option-cases (get_elem? bytes i)) [
  | inl e ↦ rw (e, Character) tt
  | inr (b, e) ↦
      rw (e, Character)
        (
          str.next_boundary i b e h,
          lead_width_pos b,
          max-current_width_at bytes i e,
          lead_width-ascii b,
          str.is_byte i b e,
        )
]
