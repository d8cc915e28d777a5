-- ===== src/Lexer/Scan/Strings.antt =====
-- The shape of a string literal (crates/lexer/src/lexer.rs, `scan_string`), and that the scanner
-- accepts exactly this shape.
use thagore.Base.{
  ℕ, zero, suc, ◌+◌, ◌-◌, as_u32, ◌<◌, ◌≡◌, ◌≢◌, ◌↔◌, refl, ◌⊎◌, inl, inr, true, false, some,
  get_elem?, length, arith, get_elem?-Found, ap,
}
use thagore.Lexer.Scan.{
  Lexer, fuel_of, is_break, StringStep, more, closed, unterminated, string_step, string_loop,
  scan_string, string_token,
}
use thagore.Lexer.Token.{Token, TokenKind, TokenData}
use thagore.Lexer.Scan.Loops.{goes_on, string_loop_ends}
use thagore.Lexer.Source.Boundary.{IsStr, boundary-Character}
use thagore.Lexer.Source.{Bytes, is_char_boundary, lead_width, classify_string_at}

-- The characters from `i` to `j` may stand between quotes: a backslash takes the character behind
-- it along, and neither a quote nor a line break stands alone.
pub data IsContent (bytes : Bytes) : ℕ → ℕ → Type 0 where
  nil : {i j : ℕ} → i ≡ j → IsContent bytes i j
  char :
      {i j : ℕ} (b : ℕ)
      → get_elem? bytes i ≡ some b
      → b ≢ b'\\'
      → b ≢ b'"'
      → is_break b ≡ false
      → IsContent bytes (i + lead_width b) j
      → IsContent bytes i j
  escape :
      {i j : ℕ} (c : ℕ)
      → get_elem? bytes i ≡ some b'\\'
      → get_elem? bytes (i + 1) ≡ some c
      → is_break c ≡ false
      → IsContent bytes (i + 1 + lead_width c) j
      → IsContent bytes i j

module _ (bytes : Bytes) (str : IsStr bytes) where
  -- One round goes over a plain character.
  string_step-char :
      (i b : ℕ)
      → is_char_boundary bytes i ≡ true
      → get_elem? bytes i ≡ some b
      → b ≢ b'\\'
      → b ≢ b'"'
      → is_break b ≡ false
      → string_step bytes i ≡ more (i + lead_width b)
  unfolding string_step classify_string_at
  string_step-char i b h e s q k = ground (arith, boundary-Character bytes str i h)

  string_step-escape :
      (i c : ℕ)
      → is_char_boundary bytes i ≡ true
      → get_elem? bytes i ≡ some b'\\'
      → get_elem? bytes (i + 1) ≡ some c
      → is_break c ≡ false
      → string_step bytes i ≡ more (i + 1 + lead_width c)
  unfolding string_step
  string_step-escape i c h e f k =
      ground (arith, boundary-Character bytes str i h, boundary-Character bytes str (i + 1))

  string_step-quote : (i : ℕ) → get_elem? bytes i ≡ some b'"' → string_step bytes i ≡ closed i
  unfolding string_step
  string_step-quote i e = ground arith

  next_boundary :
      (i b : ℕ)
      → is_char_boundary bytes i ≡ true
      → get_elem? bytes i ≡ some b
      → (is_char_boundary bytes (i + lead_width b) ≡ true) × (i < i + lead_width b)
  next_boundary i b h e = ground (arith, boundary-Character bytes str i h)

  escape_boundary :
      (i c : ℕ)
      → is_char_boundary bytes i ≡ true
      → get_elem? bytes i ≡ some b'\\'
      → get_elem? bytes (i + 1) ≡ some c
      → (is_char_boundary bytes (i + 1 + lead_width c) ≡ true) × (i < i + 1 + lead_width c)
  escape_boundary i c h e f =
      ground (arith, boundary-Character bytes str i h, boundary-Character bytes str (i + 1))

  -- The scanner accepts every content in front of a quote.
  string_loop_complete :
      (fuel i : ℕ) {j : ℕ}
      → IsContent bytes i j
      → is_char_boundary bytes i ≡ true
      → get_elem? bytes j ≡ some b'"'
      → length bytes < i + fuel
      → string_loop fuel bytes i ≡ closed j
  unfolding string_loop
  string_loop_complete zero i {j} (nil p) h q lt = absurd (ground (arith, get_elem?-Found bytes j))
  string_loop_complete (suc fuel) i {j} (nil p) h q lt =
      rw p (ground (arith, string_step-quote j q))
  string_loop_complete zero i {j} (char b e s k l rest) h q lt =
      absurd (ground (arith, get_elem?-Found bytes i))
  string_loop_complete (suc fuel) i {j} (char b e s k l rest) h q lt =
      let (next, lower) = next_boundary i b h e in
      ground (
        arith,
        string_step-char i b h e s k l,
        string_loop_complete fuel (i + lead_width b) rest next q (omega arith),
      )
  string_loop_complete zero i {j} (escape c e f k rest) h q lt =
      absurd (ground (arith, get_elem?-Found bytes i))
  string_loop_complete (suc fuel) i {j} (escape c e f k rest) h q lt =
      let (next, lower) = escape_boundary i c h e f in
      ground (
        arith,
        string_step-escape i c h e f k,
        string_loop_complete fuel (i + 1 + lead_width c) rest next q (omega arith),
      )

  -- What a round tells of the text.
  abbrev Shape : ℕ → StringStep → Type 0
  Shape i (more k) =
      ((b : ℕ) × (get_elem? bytes i ≡ some b)
        × (b ≢ b'\\')
        × (b ≢ b'"')
        × (is_break b ≡ false)
        × (k ≡ i + lead_width b))
      ⊎ ((c : ℕ) × (get_elem? bytes i ≡ some b'\\')
          × (get_elem? bytes (i + 1) ≡ some c)
          × (is_break c ≡ false)
          × (k ≡ i + 1 + lead_width c))
  Shape i (closed k) = (k ≡ i) × (get_elem? bytes i ≡ some b'"')
  Shape i (unterminated k) = Unit

  string_step-Shape : (i : ℕ) → is_char_boundary bytes i ≡ true → Shape i (string_step bytes i)
  unfolding string_step classify_string_at
  string_step-Shape i h =
      ground (arith, boundary-Character bytes str i h, boundary-Character bytes str (i + 1))

  StringStep-cases :
      (r : StringStep)
      → ((k : ℕ) × (r ≡ more k)) ⊎ ((k : ℕ) × (r ≡ closed k)) ⊎ ((k : ℕ) × (r ≡ unterminated k))
  StringStep-cases (more k) = inl (k, refl)
  StringStep-cases (closed k) = inr (inl (k, refl))
  StringStep-cases (unterminated k) = inr (inr (k, refl))

  -- What the scanner accepts is a content in front of a quote.
  string_loop_sound :
      (fuel i : ℕ) {j : ℕ}
      → is_char_boundary bytes i ≡ true
      → string_loop fuel bytes i ≡ closed j
      → IsContent bytes i j × (get_elem? bytes j ≡ some b'"')
  unfolding string_loop
  string_loop_sound zero i h e = cc
  string_loop_sound (suc fuel) i {j} h e = elim (StringStep-cases (string_step bytes i)) [
    | inl (k, r) ↦
        let go : string_loop fuel bytes k ≡ closed j = rw (r, string_loop) at e in
        let shape : Shape i (more k) = rw r at (string_step-Shape i h) in
        elim shape [
          | inl (b, g, s, q, l, p) ↦
              let (body, quote) =
                string_loop_sound fuel k (ground (arith, next_boundary i b h g)) go in
              (char b g s q l (rw (← p) body), quote)
          | inr (c, g, f, l, p) ↦
              let (body, quote) =
                string_loop_sound fuel k (ground (arith, escape_boundary i c h g f)) go in
              (escape c g f l (rw (← p) body), quote)
        ]
    | inr (inl (k, r)) ↦
        let shape : Shape i (closed k) = rw r at (string_step-Shape i h) in
        (nil (ground arith), ground arith)
    | inr (inr (k, r)) ↦ absurd (ground arith)
  ]

-- A token that ends behind a closing quote comes from a loop that found it.
closed_of :
    (s : Lexer) (j : ℕ) (r : StringStep)
    → goes_on r ≡ false
    → string_token s r ≡ string_token s (closed j)
    → r ≡ closed j
unfolding string_token
closed_of s j (more k) g p = cc
closed_of s j (closed k) g p =
    let end : k + 1 ≡ j + 1 = ap (λ (q : Token × Lexer). q.1.offset) p in ap closed (omega arith)
closed_of s j (unterminated k) g p = cc

-- The string token between the quotes at `i` and `j`.
abbrev pub quoted : ℕ → ℕ → Token
quoted i j = record {
  kind = TokenKind.string;
  span = record { start = as_u32 i; end = as_u32 (j + 1) };
  payload = TokenData.slice (record { offset = as_u32 (i + 1); len = as_u32 (j - (i + 1)) });
}

-- At an opening quote that starts a character of a UTF-8 text, `scan_string` gives the string
-- token whose span goes from the opening quote to behind `j`, whose slice holds the bytes from behind
-- the opening quote to `j`, and behind which the lexer goes on, if and only if these bytes are a
-- content and the closing quote stands at `j`. Positions are cut to 32 bits.
pub scan_string_iff :
    (s : Lexer) (j : ℕ)
    → IsStr s.bytes
    → is_char_boundary s.bytes s.offset ≡ true
    → get_elem? s.bytes s.offset ≡ some b'"'
    → (scan_string s ≡ (quoted s.offset j, record s { offset = j + 1; line_start = false }))
      ↔ (IsContent s.bytes (s.offset + 1) j × (get_elem? s.bytes j ≡ some b'"'))
unfolding scan_string string_token
scan_string_iff s j str h e =
    let inner = s.offset + 1 in
    let start : is_char_boundary s.bytes inner ≡ true =
      ground (arith, boundary-Character s.bytes str s.offset h) in
    let fuel = fuel_of s.bytes in
    (
      λ p. string_loop_sound s.bytes str fuel inner start (
          closed_of s j (string_loop fuel s.bytes inner)
            (string_loop_ends s.bytes (length s.bytes) inner (omega arith)) p),
      λ (body, quote).
          ap (string_token s)
            (string_loop_complete s.bytes str fuel inner body start quote (omega arith)),
    )
