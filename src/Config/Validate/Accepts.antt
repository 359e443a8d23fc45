-- ===== src/Config/Validate/Accepts.antt =====
-- Which configurations `Config.Validate` of internal/config/config.go accepts, said with no order
-- of checks and no order of map entries.
use memmy.Prelude.{
  ◌≡◌, ◌≢◌, refl, sym, ap, ◌∙◌, ◌↔◌, ◌⊎◌, inl, inr, String, str_eq, eq_iff, Bool, false, Option,
  none, [], ◌∷◌, arith, Bool-cases,
}
use memmy.Prelude.Int.{pos, int_ltb}
use memmy.Prelude.Dict.{Dict, Distinct}
use memmy.Float.{Float}
use memmy.Service.Tenant.{is_nil}
use memmy.Config.{TransportConfig, FileConfig}
use memmy.Config.Validate.{
  unsupported_storage, uri_required, user_required, password_required, api_key_required, gemini_dim,
  fake_dim, none_enabled, stdio_exclusive, or_else, fail_if, check_storage, check_embedder,
  enabled_names, check_numbers, check_transports, check_stdio, validate,
}
use memmy.Config.Validate.Transports.{
  Enabled, StdioAlone, HaveAddrs, enabled_lem, stdio_lem, addrs_lem,
}
use memmy.Config.Validate.TenantSection.{TenantValid, tenant_lem}
use memmy.Config.Validate.Checks.{
  or_else-none, fail_if-none, agrees, differs, not_nil, both_checks, one_check,
}

module _ {F : Type 0} (c : FileConfig F) where
  abbrev StorageValid : Type 0
  StorageValid =
      (c.storage.backend ≡ "neo4j")
      × (c.storage.neo4j.uri ≢ "")
      × (c.storage.neo4j.user ≢ "")
      × (c.storage.neo4j.password ≢ [])

  abbrev EmbedderValid : Type 0
  EmbedderValid =
      ((c.embedder.backend ≡ "gemini")
        × (c.embedder.gemini.api_key ≢ [])
        × (int_ltb c.embedder.gemini.dim (pos 1) ≡ false))
      ⊎ ((c.embedder.backend ≡ "fake") × (int_ltb c.embedder.fake.dim (pos 1) ≡ false))

  storage_lem : (check_storage c ≡ none) ↔ StorageValid
  unfolding check_storage
  storage_lem =
      let (ahead, back) = storage_nested in
      (
        λ h. let (a, rest) = ahead h in let (b, last) = rest in (a, b, last.0, last.1),
        λ h. back (h.0, (h.1, (h.2, h.3))),
      )
    where
      storage_nested : (check_storage c ≡ none) ↔ (
          (c.storage.backend ≡ "neo4j")
          × ((c.storage.neo4j.uri ≢ "")
              × ((c.storage.neo4j.user ≢ "") × (c.storage.neo4j.password ≢ []))))
      storage_nested =
          both_checks _ _ (one_check _ unsupported_storage (agrees c.storage.backend "neo4j")) (
            both_checks _ _ (one_check _ uri_required (differs c.storage.neo4j.uri "")) (
              both_checks _ _ (one_check _ user_required (differs c.storage.neo4j.user ""))
                (one_check _ password_required (not_nil c.storage.neo4j.password))))

  gemini_lem :
      (or_else
          (fail_if (is_nil c.embedder.gemini.api_key) api_key_required)
          (fail_if (int_ltb c.embedder.gemini.dim (pos 1)) gemini_dim)
        ≡ none)
      ↔ ((c.embedder.gemini.api_key ≢ []) × (int_ltb c.embedder.gemini.dim (pos 1) ≡ false))
  gemini_lem = both_checks _ _ (one_check _ _ (not_nil _)) (fail_if-none _ _)

  embedder_lem : (check_embedder c ≡ none) ↔ EmbedderValid
  unfolding check_embedder
  embedder_lem = elim (Bool-cases (str_eq c.embedder.backend "gemini")) [
    | inl g ↦
        let (ahead, back) = gemini_lem in
        rw g (
          λ h. inl ((eq_iff c.embedder.backend "gemini").0 g, (ahead h).0, (ahead h).1),
          λ h. elim h [
            | inl (b, k, l) ↦ back (k, l)
            | inr (b, k) ↦ absurd (cc (ap (λ s. str_eq s "gemini") (sym b) ∙ g))
          ],
        )
    | inr n ↦ elim (Bool-cases (str_eq c.embedder.backend "fake")) [
      | inl k ↦
          let (ahead, back) = fail_if-none (int_ltb c.embedder.fake.dim (pos 1)) fake_dim in
          rw (n, k)
            (
              λ h. inr ((eq_iff c.embedder.backend "fake").0 k, ahead h),
              λ h. elim h [
                | inl (b, r, l) ↦ absurd (cc (sym n ∙ (eq_iff c.embedder.backend "gemini").1 b))
                | inr (b, r) ↦ back r
              ],
            )
      | inr k ↦
          rw (n, k)
            (
              λ h. absurd (cc),
              λ h. elim h [
                | inl (b, r, l) ↦ absurd (cc (sym n ∙ (eq_iff c.embedder.backend "gemini").1 b))
                | inr (b, r) ↦ absurd (cc (sym k ∙ (eq_iff c.embedder.backend "fake").1 b))
              ],
            )
    ]
  ]

module _ (f : Float) (c : FileConfig f.F) where
  abbrev NumbersValid : Type 0
  NumbersValid =
      (int_ltb c.vector_index.flat_scan_threshold (pos 0) ≡ false)
      × (int_ltb c.memory.chunk_window_size (pos 1) ≡ false)
      × (int_ltb c.memory.chunk_stride (pos 1) ≡ false)
      × (f.le c.memory.weight_cap f.nought ≡ false)

  numbers_lem : (check_numbers f c ≡ none) ↔ NumbersValid
  unfolding check_numbers
  numbers_lem = (λ h. (ground arith, ground arith, ground arith, ground arith), λ h. ground arith)

  transports_lem :
      Distinct c.server.transports
      → (check_transports f c ≡ none) ↔ ((name : String) × Enabled c.server.transports name)
  unfolding check_transports enabled_names
  transports_lem d =
      let (some_enabled, back) = enabled_lem c.server.transports d in
      (
        λ h. some_enabled (
            ((one_check (is_nil (enabled_names c.server.transports)) none_enabled
                (λ e. e, λ e. e)).0
              ((or_else-none _ _).0 h).1)),
        λ h. ground (arith, some_transport c.server.transports (back h), back h),
      )
    where
      some_transport :
          (ts : Dict TransportConfig) → is_nil (enabled_names ts) ≡ false → is_nil ts ≡ false
      some_transport [] h = cc
      some_transport (t ∷ ts) h = refl

  stdio_check_lem :
      Distinct c.server.transports → (check_stdio f c ≡ none) ↔ StdioAlone c.server.transports
  unfolding check_stdio
  stdio_check_lem d = one_check _ stdio_exclusive (stdio_lem c.server.transports d)

module _ (compile : String → Option (String → Bool)) where
  -- What a configuration that can be accepted is.
  pub record Valid (f : Float) (c : FileConfig f.F) : Type 0 where
    pub storage : StorageValid c
    pub embedder : EmbedderValid c
    pub numbers : NumbersValid f c
    pub enabled : (name : String) × Enabled c.server.transports name
    pub tenant : TenantValid compile c.tenant
    pub alone : StdioAlone c.server.transports
    pub addrs : HaveAddrs c.server.transports

  -- `Validate` accepts exactly the configurations with a Neo4j storage that has an address, a user
  -- and a password, with an embedder that is `gemini` with a key or `fake`, of at least one
  -- dimension, with a threshold that is not negative, chunk windows and strides of at least one
  -- and a weight cap that is not below or equal to zero, with an enabled transport, `stdio` only
  -- alone, all others with an address, and with a tenant section whose patterns compile and whose
  -- key sets are not empty and name declared keys. The transports and the tenant keys are maps:
  -- no key stands twice.
  pub validate-Valid :
      (f : Float) (c : FileConfig f.F)
      → Distinct c.server.transports
      → Distinct c.tenant.keys
      → (validate compile f c ≡ none) ↔ Valid f c
  unfolding validate
  validate-Valid f c dt dk =
      let (ahead, back) = both_checks _ _ (storage_lem c) (
        both_checks _ _ (embedder_lem c) (
          both_checks _ _ (numbers_lem f c) (
            both_checks _ _ (transports_lem f c dt) (
              both_checks _ _ (tenant_lem compile c.tenant dk)
                (both_checks _ _ (stdio_check_lem f c dt) (addrs_lem c.server.transports dt)))))) in
      (
        λ h.
            let (storage, (embedder, (numbers, (enabled, (tenant, (alone, addrs)))))) = ahead h in
            record {
              storage = storage;
              embedder = embedder;
              numbers = numbers;
              enabled = enabled;
              tenant = tenant;
              alone = alone;
              addrs = addrs;
            },
        λ v.
            back
              (v.storage, (v.embedder, (v.numbers, (v.enabled, (v.tenant, (v.alone, v.addrs)))))),
      )
