-- ===== src/Config/Build/Agree.antt =====
-- The schema that an accepted tenant section starts.
use memmy.Prelude.{
  ◌≡◌, refl, inl, inr, arith, String, str_eq, Bool, true, false, not, ◌&&◌, Option, none, some, [],
  ◌∷◌, if◌then◌else◌, Bool-cases,
}
use memmy.Prelude.Dict.{Dict, get}
use memmy.Service.Tenant.{TenantKey, TenantSchema, is_present}
use memmy.Config.{TenantKeyConfig, TenantSchemaConfig}
use memmy.Config.Validate.{
  ConfigError, or_else, fail_if, bad_pattern, is_configured, check_patterns, check_sets,
  validate_tenant,
}
use memmy.Config.Build.{key_with, compiled, build_key, build_keys, new_tenant_schema_from_config}

or_else-none : (a b : Option ConfigError) → or_else a b ≡ none → (a ≡ none) × (b ≡ none)
or_else-none none b h = (refl, h)
or_else-none (some e) b h = absurd (cc)

fail_if-none : (b : Bool) (e : ConfigError) → fail_if b e ≡ none → b ≡ false
fail_if-none true e h = absurd (cc)
fail_if-none false e h = refl

module _ (compile : String → Option (String → Bool)) where
  -- Whether a key is declared as a section configures it: the requirement, the enumeration and the
  -- texts are those of the section, and the pattern is the compiled one, if there is one.
  abbrev pub Declares : Option TenantKeyConfig → Option TenantKey → Type 0
  Declares none none = Unit
  Declares none (some k) = ⊥
  Declares (some kc) none = ⊥
  Declares (some kc) (some k) =
      (k.required ≡ kc.required)
      × (k.enum ≡ kc.enum)
      × (k.description ≡ kc.description)
      × (k.pattern_raw ≡ kc.pattern)
      × (k.pattern ≡ (if str_eq kc.pattern "" then none else compile kc.pattern))

  build_key_total :
      (kc : TenantKeyConfig) (name : String)
      → fail_if
          (not (str_eq kc.pattern "") && not (is_present (compile kc.pattern)))
          (bad_pattern name)
        ≡ none
      → (k : TenantKey) × (build_key compile kc ≡ some k) × Declares (some kc) (some k)
  unfolding build_key
  build_key_total kc name h = elim (Bool-cases (str_eq kc.pattern "")) [
    | inl e ↦ (key_with compile kc none, rw e refl, (refl, refl, refl, refl, rw e refl))
    | inr e ↦ given (compile kc.pattern) refl e
  ]
    where
      given :
          (o : Option (String → Bool))
          → compile kc.pattern ≡ o
          → str_eq kc.pattern "" ≡ false
          → (k : TenantKey) × ((if str_eq kc.pattern ""
                then some (key_with compile kc none)
                else compiled compile kc (compile kc.pattern))
              ≡ some k)
            × Declares (some kc) (some k)
      given none q e = absurd (ground (arith, h, q, e))
      given (some p) q e =
          (key_with compile kc (some p), rw (e, q) refl, (refl, refl, refl, refl, rw (e, q) refl))

  build_keys_total :
      (keys : Dict TenantKeyConfig)
      → check_patterns compile keys ≡ none
      → (out : Dict TenantKey) × (build_keys compile keys ≡ some out)
        × ((k : String) → Declares (get k keys) (get k out))
  unfolding check_patterns build_keys get
  build_keys_total [] h = ([], refl, λ k. tt)
  build_keys_total ((name, kc) ∷ keys) h =
      let (here, there) = or_else-none _ _ h in
      let (key, e, declared) = build_key_total kc name here in
      let (out, es, same) = build_keys_total keys there in
      (
        (name, key) ∷ out,
        rw (e, es) refl,
        λ k. elim (Bool-cases (str_eq name k)) [ inl b ↦ rw b declared | inr b ↦ rw b (same k) ],
      )

  -- A tenant section that `Validate` accepts, and that has a rule, builds a schema:
  -- `NewTenantSchemaFromConfig` does not fail, the schema has the section's description and key
  -- sets, and it declares a key exactly where the section does, with the section's requirement,
  -- enumeration and texts, and with the compiled pattern where the section has one.
  pub new_tenant_schema_lem :
      (c : TenantSchemaConfig)
      → validate_tenant compile c ≡ none
      → is_configured c ≡ true
      → (s : TenantSchema) × (new_tenant_schema_from_config compile c ≡ some (some s))
        × (s.description ≡ c.description)
        × (s.one_of ≡ c.one_of)
        × ((k : String) → Declares (get k c.keys) (get k s.keys))
  unfolding new_tenant_schema_from_config validate_tenant
  new_tenant_schema_lem c h configured =
      let (patterns, sets) =
        or_else-none (check_patterns compile c.keys) (check_sets c.keys c.one_of)
          (rw configured at h) in
      let (out, e, same) = build_keys_total c.keys patterns in
      (
        record { description = c.description; keys = out; one_of = c.one_of },
        rw (configured, e) refl,
        refl,
        refl,
        same,
      )
