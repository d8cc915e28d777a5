-- ===== src/Ir/Validate/Instrs.antt =====
-- The loop over the instructions of a block (crates/ir/src/validate.rs).
use thagore.Base.Maps.{mem}
use thagore.Base.{◌≡◌, refl, ◌||◌, Bool, false, List, [], ◌∷◌, ◌++◌, arith}
use thagore.Ir.{Value, Instr, BasicBlock}
use thagore.Ir.Validate.Valid.{defined_in, InstrIsValid, mem-see_all}
use thagore.Ir.Validate.Checks.{check_instr-nil, check_instr-valid}
use thagore.Ir.Validate.{check_instr, check_instrs, see}

pub append-nil_both {ℓ} : {A : Type ℓ} (xs ys : List A) → xs ++ ys ≡ [] → (xs ≡ []) × (ys ≡ [])
append-nil_both [] ys e = (refl, e)
append-nil_both (x ∷ xs) ys e = cc

pub both-append_nil {ℓ} : {A : Type ℓ} (xs ys : List A) → xs ≡ [] → ys ≡ [] → xs ++ ys ≡ []
both-append_nil xs ys e f = rw (e, ◌++◌) f

module _ (all : List Value) (block : BasicBlock) where
  -- Every instruction is valid behind those that stand before it.
  abbrev pub AllValid : (Value → Bool) → List Instr → Type 0
  AllValid known instrs =
      (before after : List Instr) (instr : Instr)
      → instrs ≡ before ++ instr ∷ after
      → InstrIsValid (λ v. mem v all) (λ v. known v || defined_in v before) block instr

  pub check_instrs-nil :
      (seen : List Value) (instrs : List Instr)
      → check_instrs all block seen instrs ≡ []
      → AllValid (λ v. mem v seen) instrs
  unfolding check_instrs
  check_instrs-nil seen [] e [] after i h = cc
  check_instrs-nil seen [] e (j ∷ before) after i h = cc
  check_instrs-nil seen (instr ∷ instrs) e [] after i h =
      let (here, rest) = append-nil_both (check_instr all block seen instr) _ e in
      let same : instr ≡ i = ground arith in
      check_instr-nil all seen (λ v. mem v seen || false) (λ v. ground arith) block i
        (rw (← same) here)
  check_instrs-nil seen (instr ∷ instrs) e (j ∷ before) after i h =
      let (here, rest) = append-nil_both (check_instr all block seen instr) _ e in
      let same : instr ≡ j = ground arith in
      let tail : instrs ≡ before ++ i ∷ after = ground arith in
      let w = check_instrs-nil (see seen instr) instrs rest before after i tail in
      record {
        uses = λ v p. ground (arith, same, w.uses v, mem-see_all v seen (instr ∷ []));
        inputs = w.inputs;
      }

  pub check_instrs-Valid :
      (seen : List Value) (instrs : List Instr)
      → AllValid (λ v. mem v seen) instrs
      → check_instrs all block seen instrs ≡ []
  unfolding check_instrs
  check_instrs-Valid seen [] w = refl
  check_instrs-Valid seen (instr ∷ instrs) w =
      both-append_nil (check_instr all block seen instr) _
        (check_instr-valid all seen (λ v. mem v seen || false) (λ v. ground arith) block instr
          (w [] instrs instr refl))
        (check_instrs-Valid (see seen instr) instrs (λ before after i h.
          let o = w (instr ∷ before) after i (ground arith) in
          record {
            uses = λ v p. ground (arith, o.uses v, mem-see_all v seen (instr ∷ []));
            inputs = o.inputs;
          }))
