-- ===== src/Lexer/Scan/Literals.antt =====
-- The shape of a number literal (crates/lexer/src/lexer.rs, `scan_number`): a run of digits, and a
-- fraction if a dot and another digit follow.
use thagore.Base.{
  ℕ, zero, suc, ◌+◌, ◌-◌, as_u32, ◌≤◌, ◌<◌, ◌≡◌, refl, inl, inr, Bool, true, false, length, arith,
  get_elem?-Found, Bool-cases, ◌&&◌, ◌==◌, ◌∙◌,
}
use thagore.Lexer.Scan.{Lexer, byte_is, fuel_of, number_loop, number_kind, scan_number}
use thagore.Lexer.Source.{Bytes, digit_at, classify_number_at}
use thagore.Lexer.Table.{DfaState, transition}
use thagore.Lexer.Token.{Token, TokenKind, TokenData}

-- The digits from `i` on end at `j`.
pub record IsDigits (bytes : Bytes) (i j : ℕ) : Type 0 where
  pub ordered : i ≤ j
  pub digits : (k : ℕ) → i ≤ k → k < j → digit_at bytes k ≡ true
  pub maximal : digit_at bytes j ≡ false

-- A dot at `i` that a digit follows.
abbrev pub fraction_at : Bytes → ℕ → Bool
fraction_at bytes i = byte_is bytes i b'.' && digit_at bytes (i + 1)

pub data IsNumber (bytes : Bytes) (i : ℕ) : TokenKind → ℕ → Type 0 where
  whole :
      {j : ℕ}
      → IsDigits bytes i j
      → fraction_at bytes j ≡ false
      → IsNumber bytes i TokenKind.integer j
  fractional :
      {dot j : ℕ}
      → IsDigits bytes i dot
      → fraction_at bytes dot ≡ true
      → IsDigits bytes (dot + 1) j
      → IsNumber bytes i TokenKind.float j

module _ (bytes : Bytes) where
  IsDigits-cons :
      (i j : ℕ) → digit_at bytes i ≡ true → IsDigits bytes (i + 1) j → IsDigits bytes i j
  IsDigits-cons i j h d = record {
    ordered = omega (arith, d.ordered);
    digits = λ k lo hi. elim (Bool-cases (k == i)) [
      | inl same ↦ ground arith
      | inr other ↦ d.digits k (ground arith) hi
    ];
    maximal = d.maximal;
  }

  IsDigits-nil : (i : ℕ) → digit_at bytes i ≡ false → IsDigits bytes i i
  IsDigits-nil i h = record {
    ordered = omega arith;
    digits = λ k lo hi. absurd (omega arith);
    maximal = h;
  }

  IsNumber-cons :
      {kind : TokenKind} {j : ℕ} (i : ℕ)
      → digit_at bytes i ≡ true
      → IsNumber bytes (i + 1) kind j
      → IsNumber bytes i kind j
  IsNumber-cons i h (whole d f) = whole (IsDigits-cons i _ h d) f
  IsNumber-cons i h (fractional d f e) = fractional (IsDigits-cons i _ h d) f e

  -- One round of the loop, by the byte at hand.
  integer_step :
      (fuel i : ℕ)
      → number_loop (suc fuel) bytes DfaState.integer i ≡ (elim (digit_at bytes i) [
        | true ↦ number_loop fuel bytes DfaState.integer (i + 1)
        | false ↦ elim (fraction_at bytes i) [
          | true ↦ number_loop fuel bytes DfaState.fraction_start (i + 1)
          | false ↦ (DfaState.integer, i)
        ]
      ])
  unfolding number_loop classify_number_at transition
  integer_step fuel i = ground arith

  float_loop :
      (fuel i : ℕ)
      → length bytes < i + fuel
      → (j : ℕ) × (number_loop fuel bytes DfaState.float i ≡ (DfaState.float, j))
        × IsDigits bytes i j
  unfolding number_loop classify_number_at transition
  float_loop zero i lt = (i, refl, IsDigits-nil i (ground (arith, get_elem?-Found bytes i)))
  float_loop (suc fuel) i lt = elim (Bool-cases (digit_at bytes i)) [
    | inl d ↦
        let (j, e, r) = float_loop fuel (i + 1) (omega arith) in
        (j, ground arith, IsDigits-cons i j d r)
    | inr d ↦ (i, ground arith, IsDigits-nil i d)
  ]

  -- Behind the dot stands a digit, so the fraction is not empty.
  fraction_loop :
      (fuel i : ℕ)
      → length bytes < i + fuel
      → digit_at bytes i ≡ true
      → (j : ℕ) × (number_loop fuel bytes DfaState.fraction_start i ≡ (DfaState.float, j))
        × IsDigits bytes i j
  unfolding number_loop classify_number_at transition
  fraction_loop zero i lt d = absurd (ground (arith, get_elem?-Found bytes i))
  fraction_loop (suc fuel) i lt d =
      let (j, e, r) = float_loop fuel (i + 1) (omega arith) in
      (j, ground arith, IsDigits-cons i j d r)

  integer_loop :
      (fuel i : ℕ)
      → length bytes < i + fuel
      → (state : DfaState) × (j : ℕ) × (number_loop fuel bytes DfaState.integer i ≡ (state, j))
        × IsNumber bytes i (number_kind state) j
  unfolding number_loop
  integer_loop zero i lt = (
    DfaState.integer,
    i,
    refl,
    whole (IsDigits-nil i (ground (arith, get_elem?-Found bytes i)))
        (ground (arith, get_elem?-Found bytes i)),
  )
  integer_loop (suc fuel) i lt = elim (Bool-cases (digit_at bytes i)) [
    | inl d ↦
        let (state, j, e, r) = integer_loop fuel (i + 1) (omega arith) in
        (state, j, integer_step fuel i ∙ rw d e, IsNumber-cons i d r)
    | inr d ↦ elim (Bool-cases (fraction_at bytes i)) [
      | inl f ↦
          let (j, e, r) = fraction_loop fuel (i + 1) (omega arith) (ground arith) in
          (
            DfaState.float,
            j,
            integer_step fuel i ∙ rw d (rw f e),
            fractional (IsDigits-nil i d) f r,
          )
      | inr f ↦ (DfaState.integer, i, integer_step fuel i ∙ rw d (rw f), whole (IsDigits-nil i d) f)
    ]
  ]

-- The token of a number from `i` to `j`.
abbrev pub numeral : TokenKind → ℕ → ℕ → Token
numeral kind i j = record {
  kind = kind;
  span = record { start = as_u32 i; end = as_u32 j };
  payload = TokenData.slice (record { offset = as_u32 i; len = as_u32 j - as_u32 i });
}

-- `scan_number` gives a token whose span and slice cover a run of digits, with a fraction if and only if a
-- dot and a digit follow the run; it is a `Float` with a fraction, an `Integer` with none, and goes on as far as
-- digits do. The lexer goes on behind it. Positions are cut to 32 bits.
pub scan_number-IsNumber :
    (s : Lexer)
    → (kind : TokenKind) × (j : ℕ) × IsNumber s.bytes s.offset kind j
      × (scan_number s ≡ (numeral kind s.offset j, record s { offset = j; line_start = false }))
unfolding scan_number
scan_number-IsNumber s =
    let (state, j, e, r) = integer_loop s.bytes (fuel_of s.bytes) s.offset (omega arith) in
    (number_kind state, j, r, rw (e, scan_number) refl)
