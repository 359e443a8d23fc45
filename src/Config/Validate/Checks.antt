-- ===== src/Config/Validate/Checks.antt =====
-- The checks of internal/config/config.go that return the first error.
use memmy.Prelude.{
  ◌≡◌, ◌≢◌, refl, sym, ◌∙◌, ◌↔◌, String, str_eq, eq_iff, Bool, true, false, not, Option, none, some,
  List, [], ◌∷◌, All, arith, Bool-cases, inl, inr,
}
use memmy.Prelude.Dict.{Dict, get}
use memmy.Service.Tenant.{is_nil, is_present}
use memmy.Config.Validate.{ConfigError, or_else, fail_if}

pub or_else-none : (a b : Option ConfigError) → (or_else a b ≡ none) ↔ ((a ≡ none) × (b ≡ none))
or_else-none none b = (λ h. (refl, h), λ h. h.1)
or_else-none (some e) b = (λ h. absurd (cc), λ h. h.0)

pub fail_if-none : (b : Bool) (e : ConfigError) → (fail_if b e ≡ none) ↔ (b ≡ false)
fail_if-none true e = (λ h. absurd (cc), λ h. absurd (cc))
fail_if-none false e = (λ h. refl, λ h. refl)

pub present : {V : Type 0} (o : Option V) → (is_present o ≡ true) ↔ ((v : V) × (o ≡ some v))
present none = (λ h. absurd (cc), λ h. absurd (cc (h.1)))
present (some v) = (λ h. (v, refl), λ h. refl)

pub differs : (a b : String) → (str_eq a b ≡ false) ↔ (a ≢ b)
differs a b = (
  λ h e. absurd (cc (sym h ∙ (eq_iff a b).1 e)),
  λ h. elim (Bool-cases (str_eq a b)) [ inl e ↦ absurd (h ((eq_iff a b).0 e)) | inr e ↦ e ],
)

pub not_nil : {A : Type 0} (xs : List A) → (is_nil xs ≡ false) ↔ (xs ≢ [])
not_nil [] = (λ h. absurd (cc), λ h. absurd (h refl))
not_nil (x ∷ xs) = (λ h e. cc e, λ h. refl)

-- A loop with an early return accepts when every round does.
pub loop_accepts :
    {A : Type 0} (check : A → Option ConfigError) (loop : List A → Option ConfigError)
    → loop [] ≡ none
    → ((a : A) (rest : List A) → loop (a ∷ rest) ≡ or_else (check a) (loop rest))
    → (xs : List A) → (loop xs ≡ none) ↔ All (λ a. check a ≡ none) xs
loop_accepts check loop nil step [] = (λ h. tt, λ h. nil)
loop_accepts check loop nil step (a ∷ xs) =
    let (ahead, back) = loop_accepts check loop nil step xs in
    let (split, join) = or_else-none (check a) (loop xs) in
    (
      λ h. let (first, rest) = split (sym (step a xs) ∙ h) in (first, ahead rest),
      λ h. step a xs ∙ join (h.0, back h.1),
    )

module _ {P : Type 0} where
  -- Two checks, the second one where the first finds nothing.
  pub both_checks :
      {Q : Type 0} (a b : Option ConfigError)
      → (a ≡ none) ↔ P
      → (b ≡ none) ↔ Q
      → (or_else a b ≡ none) ↔ (P × Q)
  both_checks a b p q =
      let (split, join) = or_else-none a b in
      (λ h. let (x, y) = split h in (p.0 x, q.0 y), λ h. join (p.1 h.0, q.1 h.1))

  -- One check, of a test that is false exactly where `P` holds.
  pub one_check : (b : Bool) (e : ConfigError) → (b ≡ false) ↔ P → (fail_if b e ≡ none) ↔ P
  one_check b e p = let (ahead, back) = fail_if-none b e in (λ h. p.0 (ahead h), λ h. back (p.1 h))

pub agrees : (a b : String) → (not (str_eq a b) ≡ false) ↔ (a ≡ b)
agrees a b = (λ h. (eq_iff a b).0 (ground arith), λ h. rw ((eq_iff a b).1 h) refl)

pub missing :
    {V : Type 0} (m : Dict V) (k : String)
    → (not (is_present (get k m)) ≡ false) ↔ ((v : V) × (get k m ≡ some v))
missing m k =
    let (ahead, back) = present (get k m) in (λ h. ahead (ground arith), λ h. rw (back h) refl)
