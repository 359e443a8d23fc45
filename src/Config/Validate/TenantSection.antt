-- ===== src/Config/Validate/TenantSection.antt =====
-- Which tenant sections `TenantSchemaConfig.Validate` of internal/config/config.go accepts.
use memmy.Prelude.{
  ◌≡◌, ◌≢◌, refl, ◌↔◌, inl, inr, String, str_eq, Bool, false, not, ◌&&◌, ◌||◌, Option, none, some,
  List, [], ◌∷◌, All, arith, Bool-cases,
}
use memmy.Prelude.Dict.{Dict, get, Distinct, All-get, get-All}
use memmy.Service.Tenant.{is_nil, is_present}
use memmy.Config.{TenantKeyConfig, TenantSchemaConfig}
use memmy.Config.Validate.{
  ConfigError, empty_set, undeclared_key, bad_pattern, fail_if, is_configured, check_declared,
  check_sets, check_patterns, validate_tenant,
}
use memmy.Config.Validate.Checks.{
  present, missing, differs, not_nil, loop_accepts, both_checks, one_check,
}

-- A set of keys that are declared, and not the empty one.
abbrev pub SetValid : Dict TenantKeyConfig → List String → Type 0
SetValid keys set = (set ≢ []) × All (λ k. (key : TenantKeyConfig) × (get k keys ≡ some key)) set

declared_lem :
    (keys : Dict TenantKeyConfig) (set : List String)
    → (check_declared keys set ≡ none)
      ↔ All (λ k. (key : TenantKeyConfig) × (get k keys ≡ some key)) set
unfolding check_declared
declared_lem keys [] = (λ h. tt, λ h. refl)
declared_lem keys (k ∷ ks) =
    both_checks _ _ (one_check _ (undeclared_key k) (missing keys k)) (declared_lem keys ks)

sets_lem :
    (keys : Dict TenantKeyConfig) (sets : List (List String))
    → (check_sets keys sets ≡ none) ↔ All (SetValid keys) sets
unfolding check_sets
sets_lem keys [] = (λ h. tt, λ h. refl)
sets_lem keys (set ∷ sets) =
    let (ahead, back) =
      both_checks _ _ (one_check _ empty_set (not_nil set))
        (both_checks _ _ (declared_lem keys set) (sets_lem keys sets)) in
    (λ h. let (a, rest) = ahead h in ((a, rest.0), rest.1), λ h. back (h.0.0, (h.0.1, h.1)))

module _ (compile : String → Option (String → Bool)) where
  -- The pattern of every key, if there is one, compiles.
  abbrev pub Compile : Dict TenantKeyConfig → Type 0
  Compile keys =
      (name : String) (k : TenantKeyConfig)
      → get name keys ≡ some k
      → k.pattern ≢ ""
      → (p : String → Bool) × (compile k.pattern ≡ some p)

  pattern_check : String × TenantKeyConfig → Option ConfigError
  pattern_check e =
      fail_if (not (str_eq e.1.pattern "") && not (is_present (compile e.1.pattern)))
        (bad_pattern e.0)

  pattern_check-none :
      (e : String × TenantKeyConfig)
      → (pattern_check e ≡ none)
        ↔ (e.1.pattern ≢ "" → (p : String → Bool) × (compile e.1.pattern ≡ some p))
  unfolding pattern_check
  pattern_check-none e = (
    λ h written.
        (present (compile e.1.pattern)).0 (ground (arith, h, (differs e.1.pattern "").1 written)),
    λ h. elim (Bool-cases (str_eq e.1.pattern "")) [
      | inl empty ↦ rw empty refl
      | inr written ↦
          rw (written, (present (compile e.1.pattern)).1 (h ((differs e.1.pattern "").0 written)))
            refl
    ],
  )

  patterns_lem :
      (keys : Dict TenantKeyConfig)
      → Distinct keys
      → (check_patterns compile keys ≡ none) ↔ Compile keys
  unfolding check_patterns pattern_check
  patterns_lem keys d =
      let (ahead, back) =
        loop_accepts pattern_check (check_patterns compile) refl (λ e m. refl) keys in
      (
        λ h name k e.
            (pattern_check-none (name, k)).0
              (All-get (λ x. pattern_check x ≡ none) keys (ahead h) e),
        λ h. back (
            get-All (λ x. pattern_check x ≡ none) keys d
              (λ name k e. (pattern_check-none (name, k)).1 (h name k e))),
      )

  -- Every pattern compiles, and every set is valid.
  abbrev pub TenantValid : TenantSchemaConfig → Type 0
  TenantValid t = Compile t.keys × All (SetValid t.keys) t.one_of

  pub tenant_lem :
      (t : TenantSchemaConfig)
      → Distinct t.keys
      → (validate_tenant compile t ≡ none) ↔ TenantValid t
  unfolding validate_tenant is_configured get
  tenant_lem t d =
      let (ahead, back) = both_checks _ _ (patterns_lem t.keys d) (sets_lem t.keys t.one_of) in
      elim (Bool-cases (is_configured t)) [
        | inl on ↦ rw on (ahead, back)
        | inr off ↦ rw off (λ h. nothing t.keys t.one_of off, λ h. refl)
      ]
    where
      nothing :
          (keys : Dict TenantKeyConfig) (sets : List (List String))
          → (not (is_nil keys) || not (is_nil sets)) ≡ false
          → Compile keys × All (SetValid keys) sets
      nothing [] [] h = (λ name k e. absurd (cc), tt)
      nothing [] (s ∷ sets) h = absurd (cc)
      nothing (k ∷ keys) sets h = absurd (cc)
