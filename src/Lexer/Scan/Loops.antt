-- ===== src/Lexer/Scan/Loops.antt =====
-- The loops of the scanners: they move over whole characters, and end by their own tests.
use Prim.Native.Nat.{max}
use thagore.Base.{
  ℕ, zero, suc, ◌+◌, ◌≤◌, ◌<◌, ◌≡◌, ◌≢◌, Bool, true, false, none, some, get_elem?, length, arith,
  get_elem?-Found,
}
use thagore.Lexer.Scan.{
  is_break, skip_comment, number_loop, StringStep, more, closed, unterminated, string_step,
  string_loop, identifier_loop,
}
use thagore.Lexer.Source.Boundary.{IsStr, Reaches, Reaches-refl, boundary-Character, lead_width_pos}
use thagore.Lexer.Source.{
  Bytes, Unicode, byte_or, is_char_boundary, current_width_at, classify_unicode_identifier,
  classify_identifier_at, classify_number_at, classify_string_at,
}
use thagore.Lexer.Table.{DfaState, transition}

-- The text is at an end of a line, or at its own end.
abbrev pub at_break : Bytes → ℕ → Bool
at_break bytes i = elim (get_elem? bytes i) [ none ↦ true | some b ↦ is_break b ]

-- The states of a number.
abbrev pub in_number : DfaState → Bool
in_number state = elim state [
  | DfaState.integer ↦ true
  | DfaState.fraction_start ↦ true
  | DfaState.float ↦ true
  | _ ↦ false
]

-- Whether an identifier may go on with the character at `i`.
abbrev pub Accepts : Unicode → Bytes → ℕ → Type 0
Accepts u bytes i =
    transition DfaState.identifier (classify_identifier_at u bytes i).class ≢ DfaState.reject

-- Where the string token ends.
abbrev pub string_end : StringStep → ℕ
string_end (more j) = j
string_end (closed j) = j + 1
string_end (unterminated j) = j

abbrev pub goes_on : StringStep → Bool
goes_on step = elim step [ more j ↦ true | _ ↦ false ]

module _ (bytes : Bytes) where
  pub skip_comment-at_break :
      (fuel i : ℕ) → length bytes < i + fuel → at_break bytes (skip_comment fuel bytes i) ≡ true
  unfolding skip_comment
  skip_comment-at_break zero i h = ground (arith, get_elem?-Found bytes i)
  skip_comment-at_break (suc fuel) i h =
      ground (arith, skip_comment-at_break fuel (i + max (current_width_at bytes i) 1))

  pub number_loop-reject :
      (fuel i : ℕ) (state : DfaState)
      → length bytes < i + fuel
      → in_number state ≡ true
      → (let r = number_loop fuel bytes state i in
          transition r.0 (classify_number_at bytes r.1).class ≡ DfaState.reject)
  unfolding number_loop classify_number_at transition
  number_loop-reject zero i state h q = ground (arith, get_elem?-Found bytes i)
  number_loop-reject (suc fuel) i state h q = ground (
    arith,
    get_elem?-Found bytes i,
    number_loop-reject fuel (i + 1) (transition state (classify_number_at bytes i).class),
  )

  pub identifier_loop-reject :
      (u : Unicode) (fuel i : ℕ)
      → length bytes < i + fuel
      → transition DfaState.identifier
          (classify_identifier_at u bytes (identifier_loop u fuel bytes i)).class
        ≡ DfaState.reject
  unfolding identifier_loop classify_identifier_at classify_unicode_identifier transition
  identifier_loop-reject u zero i h = ground (arith, get_elem?-Found bytes i)
  identifier_loop-reject u (suc fuel) i h = ground (
    arith,
    get_elem?-Found bytes i,
    lead_width_pos (byte_or bytes i),
    identifier_loop-reject u fuel (i + (classify_identifier_at u bytes i).width),
  )

  string_step-lt :
      (i : ℕ)
      → goes_on (string_step bytes i) ≡ true
      → (i < string_end (string_step bytes i)) × (i < length bytes)
  unfolding string_step classify_string_at
  string_step-lt i = ground (arith, get_elem?-Found bytes i, lead_width_pos (byte_or bytes i))

  pub string_loop_ends :
      (fuel i : ℕ) → length bytes ≤ i + fuel → goes_on (string_loop (suc fuel) bytes i) ≡ false
  unfolding string_loop
  string_loop_ends zero i h = ground (arith, string_step-lt i)
  string_loop_ends (suc fuel) i h =
      ground (arith, string_step-lt i, string_loop_ends fuel (string_end (string_step bytes i)))

  module _ (str : IsStr bytes) where
    pub skip_comment-Reaches :
        (fuel i : ℕ) → is_char_boundary bytes i ≡ true → Reaches bytes i (skip_comment fuel bytes i)
    unfolding skip_comment
    skip_comment-Reaches zero i h = Reaches-refl bytes i h
    skip_comment-Reaches (suc fuel) i h = ground (
      arith,
      boundary-Character bytes str i h,
      skip_comment-Reaches fuel (i + max (current_width_at bytes i) 1),
    )

    -- One round of a number loop goes over one ASCII byte.
    pub number_loop-Reaches :
        (fuel i : ℕ) (state : DfaState)
        → is_char_boundary bytes i ≡ true
        → in_number state ≡ true
        → Reaches bytes i (number_loop fuel bytes state i).1
    unfolding number_loop classify_number_at transition
    number_loop-Reaches zero i state h q = Reaches-refl bytes i h
    number_loop-Reaches (suc fuel) i state h q = ground (
      arith,
      boundary-Character bytes str i h,
      number_loop-Reaches fuel (i + 1) (transition state (classify_number_at bytes i).class),
    )

    pub identifier_loop-Reaches :
        (u : Unicode) (fuel i : ℕ)
        → is_char_boundary bytes i ≡ true
        → Reaches bytes i (identifier_loop u fuel bytes i)
    unfolding identifier_loop classify_identifier_at classify_unicode_identifier transition
    identifier_loop-Reaches u zero i h = Reaches-refl bytes i h
    identifier_loop-Reaches u (suc fuel) i h = ground (
      arith,
      boundary-Character bytes str i h,
      identifier_loop-Reaches u fuel (i + (classify_identifier_at u bytes i).width),
    )

    -- A first character that is accepted is consumed.
    pub identifier_loop-lt :
        (u : Unicode) (fuel i : ℕ)
        → is_char_boundary bytes i ≡ true
        → Accepts u bytes i
        → i < identifier_loop u (suc fuel) bytes i
    unfolding identifier_loop classify_identifier_at classify_unicode_identifier transition
    identifier_loop-lt u fuel i h a = ground (
      arith,
      boundary-Character bytes str i h,
      identifier_loop-Reaches u fuel (i + (classify_identifier_at u bytes i).width),
    )

    pub string_step-Reaches :
        (i : ℕ)
        → is_char_boundary bytes i ≡ true
        → Reaches bytes i (string_end (string_step bytes i))
    unfolding string_step classify_string_at
    string_step-Reaches i h = ground (
      arith,
      boundary-Character bytes str i h,
      boundary-Character bytes str (i + max (current_width_at bytes i) 1),
    )

    pub string_loop-Reaches :
        (fuel i : ℕ)
        → is_char_boundary bytes i ≡ true
        → Reaches bytes i (string_end (string_loop fuel bytes i))
    unfolding string_loop
    string_loop-Reaches zero i h = Reaches-refl bytes i h
    string_loop-Reaches (suc fuel) i h = ground (
      arith,
      string_step-Reaches i h,
      string_loop-Reaches fuel (string_end (string_step bytes i)),
    )
