-- ===== src/Config/Env/Meaning.antt =====
-- What `expandEnv` does to a string.
use memmy.Prelude.{
  ℕ, zero, suc, ◌+◌, ◌<◌, ◌≡◌, ◌≢◌, refl, ap, ◌∙◌, inl, inr, arith, false, Option, none, some, [],
  ◌∷◌, ◌++◌, ◌==◌, length, Bool-cases,
}
use memmy.Chunker.Text.{Text}
use memmy.Config.Env.{
  opens, has_opening, until_close, push, reference, emit, expand_loop, expand_env,
}

-- No closing brace.
abbrev pub Unclosed : Text → Type 0
Unclosed [] = Unit
Unclosed (c ∷ s) = ((c == b'}') ≡ false) × Unclosed s

-- `${name}` and what follows it.
abbrev pub closed_reference : Text → Text → Text
closed_reference name rest = b'$' ∷ b'{' ∷ (name ++ b'}' ∷ rest)

-- The string does not start with a closed reference.
abbrev pub StartsPlain : Text → Type 0
StartsPlain s = (name rest : Text) → Unclosed name → s ≢ closed_reference name rest

-- Every `${name}` is replaced by the variable's value, and every other rune stays.
pub data Expands (env : Text → Text) : Text → Text → Type 0 where
  done : Expands env [] []
  keep :
      {c : ℕ} {s out : Text}
      → StartsPlain (c ∷ s)
      → Expands env s out
      → Expands env (c ∷ s) (c ∷ out)
  subst_var :
      {s rest out : Text} (name : Text)
      → s ≡ closed_reference name rest
      → Unclosed name
      → Expands env rest out
      → Expands env s (env name ++ out)

abbrev Found : Text → Text → Text → Type 0
Found s name rest = (s ≡ name ++ b'}' ∷ rest) × Unclosed name × (length rest < length s)

until_close_lem : (s name rest : Text) → until_close s ≡ some (name, rest) → Found s name rest
unfolding until_close
until_close_lem [] name rest h = absurd (cc)
until_close_lem (c ∷ s) name rest h = elim (Bool-cases (c == b'}')) [
  | inl e ↦ ground (arith, e)
  | inr e ↦ pushed (until_close s) (until_close_lem s) refl (rw e at h) e
]
  where
    pushed :
        (o : Option (Text × Text))
        → ((m r : Text) → until_close s ≡ some (m, r) → Found s m r)
        → until_close s ≡ o
        → push c o ≡ some (name, rest)
        → (c == b'}') ≡ false
        → Found (c ∷ s) name rest
    pushed none ih q k e = absurd (cc)
    pushed (some (m, r)) ih q k e =
        let before : c ∷ m ≡ name = cc in
        let after : r ≡ rest = cc in
        let (split, u, short) = ih m r q in
        rw (← before, ← after) (ap (λ v. c ∷ v) split, (e, u), omega arith)

until_close-closed :
    (name rest : Text) → Unclosed name → until_close (name ++ b'}' ∷ rest) ≡ some (name, rest)
unfolding until_close
until_close-closed [] rest h = refl
until_close-closed (c ∷ name) rest h = rw (h.0, until_close-closed name rest h.1) refl

reference_lem :
    (s name rest : Text)
    → reference s ≡ some (name, rest)
    → (s ≡ closed_reference name rest) × Unclosed name × (length rest < length s)
unfolding reference opens
reference_lem [] name rest h = absurd (cc)
reference_lem (c ∷ []) name rest h = absurd (cc)
reference_lem (c ∷ d ∷ s) name rest h = ground (arith, until_close_lem s name rest)

reference-none : (s : Text) → reference s ≡ none → StartsPlain s
unfolding reference opens
reference-none s h name rest u e = cc (rw e at h, until_close-closed name rest u)

module _ (env : Text → Text) where
  loop_plain :
      (fuel c : ℕ) (s : Text)
      → reference (c ∷ s) ≡ none
      → expand_loop env (suc fuel) (c ∷ s) ≡ emit (c ∷ []) (expand_loop env fuel s)
  unfolding expand_loop
  loop_plain fuel c s q = rw (q, expand_loop) refl

  loop_reference :
      (fuel c : ℕ) (s name rest : Text)
      → reference (c ∷ s) ≡ some (name, rest)
      → expand_loop env (suc fuel) (c ∷ s) ≡ emit (env name) (expand_loop env fuel rest)
  unfolding expand_loop
  loop_reference fuel c s name rest q = rw (q, expand_loop) refl

  expand_loop-Expands :
      (fuel : ℕ) (s : Text)
      → length s < fuel
      → (out : Text) × (expand_loop env fuel s ≡ some out) × Expands env s out
  unfolding expand_loop
  expand_loop-Expands zero s h = absurd (omega arith)
  expand_loop-Expands (suc fuel) [] h = ([], refl, done)
  expand_loop-Expands (suc fuel) (c ∷ s) h =
      from (reference (c ∷ s)) refl (expand_loop-Expands fuel)
    where
      from :
          (o : Option (Text × Text))
          → reference (c ∷ s) ≡ o
          → ((s' : Text)
              → length s' < fuel
              → (out : Text) × (expand_loop env fuel s' ≡ some out) × Expands env s' out)
          → (out : Text) × (expand_loop env (suc fuel) (c ∷ s) ≡ some out) × Expands env (c ∷ s) out
      from none q rec =
          let (out, e, x) = rec s (omega arith) in
          (c ∷ out, loop_plain fuel c s q ∙ ap (emit (c ∷ [])) e, keep (reference-none (c ∷ s) q) x)
      from (some (name, rest)) q rec =
          let (same, u, short) = reference_lem (c ∷ s) name rest q in
          let (out, e, x) = rec rest (omega arith) in
          (
            env name ++ out,
            loop_reference fuel c s name rest q ∙ ap (emit (env name)) e,
            subst_var name same u x,
          )

  no_opening : (s : Text) → has_opening s ≡ false → Expands env s s
  unfolding has_opening reference
  no_opening [] h = done
  no_opening (c ∷ s) h = keep (reference-none (c ∷ s) (ground arith)) (no_opening s (ground arith))

  -- `expandEnv` returns on every string: every closed `${name}` is replaced by the value of the
  -- variable, up to the first closing brace, and every other rune stays as it is.
  pub expand_env-Expands :
      (s : Text) → (out : Text) × (expand_env env s ≡ some out) × Expands env s out
  unfolding expand_env
  expand_env-Expands s = elim (Bool-cases (has_opening s)) [
    | inl h ↦
        let (out, e, x) = expand_loop-Expands (length s + 1) s (omega arith) in (out, rw h e, x)
    | inr h ↦ (s, rw h refl, no_opening s h)
  ]
