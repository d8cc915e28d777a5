-- ===== src/Parser/Symbols.antt =====
-- The symbols of the parser: `intern_text` and `resolve_symbol` of crates/parser/src/parser.rs.
use thagore.Base.{
  ℕ, zero, suc, ◌+◌, ◌-◌, ◌<◌, ◌≤◌, ◌≡◌, refl, ap, ◌∙◌, List, [], ◌∷◌, ◌++◌, Option, none, some,
  arith, length, get_elem?, Bool-cases, Option-cases, inl, inr, as_u32-eq, u32_limit,
}
use thagore.Ast.{InternedStr}
use thagore.Lexer.Keywords.{bytes_eq}
use thagore.Lexer.Keywords.Laws.{bytes_eq_iff}
use thagore.Lexer.Source.{Bytes}
use thagore.Parser.{Names, position, intern_text}

abbrev pub resolve_symbol : InternedStr → Names → Option Bytes
resolve_symbol symbol names = get_elem? names.symbols symbol

-- What the caller of `intern_text` relies on.
pub record Interned (text : Bytes) (names : Names) (r : InternedStr × Names) : Type 0 where
  pub found : resolve_symbol r.0 r.1 ≡ some text
  pub keeps :
      (symbol : InternedStr) (other : Bytes)
      → resolve_symbol symbol names ≡ some other
      → resolve_symbol symbol r.1 ≡ some other
  pub again : intern_text text r.1 ≡ r

position-some :
    (text : Bytes) (i n : ℕ) (symbols : List Bytes)
    → position text i symbols ≡ some n
    → (i ≤ n) × (n < i + length symbols) × (get_elem? symbols (n - i) ≡ some text)
position-some text i n [] h = cc
position-some text i n (s ∷ symbols) h = elim (Bool-cases (bytes_eq s text)) [
  | inl e ↦
      let same : i ≡ n = ground arith in
      let here : n - i ≡ 0 = omega arith in
      (omega arith, omega arith, rw here (ap some ((bytes_eq_iff s text).0 e)))
  | inr e ↦
      let (le, lt, found) = position-some text (i + 1) n symbols (rw e at h) in
      let step : n - i ≡ suc (n - (i + 1)) = omega arith in
      (omega arith, omega arith, rw step found)
]

position-concat :
    (text : Bytes) (i : ℕ) (symbols : List Bytes)
    → position text i symbols ≡ none
    → position text i (symbols ++ text ∷ []) ≡ some (i + length symbols)
position-concat text i [] h =
    let own = (bytes_eq_iff text text).1 refl in rw own (ap some (omega arith))
position-concat text i (s ∷ symbols) h = elim (Bool-cases (bytes_eq s text)) [
  | inl e ↦ ground arith
  | inr e ↦
      let later = position-concat text (i + 1) symbols (rw e at h) in
      let step : i + 1 + length symbols ≡ i + suc (length symbols) = omega arith in
      rw e (later ∙ ap some step)
]

get_elem?-append :
    (symbols : List Bytes) (text other : Bytes) (i : ℕ)
    → get_elem? symbols i ≡ some other
    → get_elem? (symbols ++ text ∷ []) i ≡ some other
get_elem?-append [] text other i h = cc
get_elem?-append (s ∷ symbols) text other zero h = h
get_elem?-append (s ∷ symbols) text other (suc i) h = get_elem?-append symbols text other i h

get_elem?-last :
    (symbols : List Bytes) (text : Bytes)
    → get_elem? (symbols ++ text ∷ []) (length symbols) ≡ some text
get_elem?-last [] text = refl
get_elem?-last (s ∷ symbols) text = get_elem?-last symbols text

-- With fewer than 2^32 symbols `intern_text` gives a symbol that resolves to the text, every symbol that was there
-- resolves to its text still, and a second call gives the same symbol and changes nothing.
pub intern_text-Interned :
    (text : Bytes) (names : Names)
    → length names.symbols < u32_limit
    → Interned text names (intern_text text names)
unfolding intern_text
intern_text-Interned text names small = elim (Option-cases (position text 0 names.symbols)) [
  | inr (n, e) ↦
      let (le, lt, found) = position-some text 0 n names.symbols e in
      let id = as_u32-eq n (omega arith) in
      let at_n : n - 0 ≡ n = omega arith in
      rw (e, intern_text)
        (record {
          found = rw id (rw at_n at found);
          keeps = λ symbol other h. h;
          again = rw (e, intern_text) refl;
        })
  | inl e ↦
      let place : length names.symbols + 1 - 1 ≡ length names.symbols = omega arith in
      let id = as_u32-eq (length names.symbols) small in
      let from_start : 0 + length names.symbols ≡ length names.symbols = omega arith in
      let later = position-concat text 0 names.symbols e ∙ ap some from_start in
      rw (e, place, intern_text)
        (record {
          found = rw id (get_elem?-last names.symbols text);
          keeps = λ symbol other h. get_elem?-append names.symbols text other symbol h;
          again = rw (later, intern_text) refl;
        })
]
