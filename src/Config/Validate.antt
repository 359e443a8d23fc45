-- ===== src/Config/Validate.antt =====
-- `Config.Validate` and `TenantSchemaConfig.Validate` of internal/config/config.go.
pub mod Checks
pub mod Transports
pub mod TenantSection
pub mod Accepts
use memmy.Prelude.{
  String, str_eq, Bool, true, false, not, ◌&&◌, ◌||◌, Option, none, some, List, [], ◌∷◌,
  if◌then◌else◌, ltb, length,
}
use memmy.Prelude.Int.{ℤ, pos, int_ltb}
use memmy.Prelude.Dict.{Dict, get}
use memmy.Float.{Float}
use memmy.Service.Tenant.{is_nil, is_present, contains}
use memmy.Config.{TenantKeyConfig, TenantSchemaConfig, TransportConfig, FileConfig}

-- A constructor for each message. `stdio_exclusive` is raised whatever the other transports are.
pub data ConfigError : Type 0 where
  unsupported_storage uri_required user_required password_required : ConfigError
  api_key_required gemini_dim fake_dim unsupported_embedder : ConfigError
  flat_scan_threshold chunking weight_cap : ConfigError
  no_transport none_enabled stdio_exclusive : ConfigError
  missing_addr : String → ConfigError
  bad_pattern : String → ConfigError
  empty_set : ConfigError
  undeclared_key : String → ConfigError

abbrev pub or_else : Option ConfigError → Option ConfigError → Option ConfigError
or_else (some e) rest = some e
or_else none rest = rest

-- `if bad { return e }`.
abbrev pub fail_if : Bool → ConfigError → Option ConfigError
fail_if true e = some e
fail_if false e = none

abbrev pub stdio : String
stdio = "stdio"

-- `t.IsConfigured()`.
unfoldable pub is_configured : TenantSchemaConfig → Bool
is_configured t = not (is_nil t.keys) || not (is_nil t.one_of)

module _ {F : Type 0} where
  unfoldable pub check_storage : FileConfig F → Option ConfigError
  check_storage c = or_else (fail_if (not (str_eq c.storage.backend "neo4j")) unsupported_storage) (
      or_else (fail_if (str_eq c.storage.neo4j.uri "") uri_required) (
        or_else (fail_if (str_eq c.storage.neo4j.user "") user_required)
          (fail_if (is_nil c.storage.neo4j.password) password_required)))

  unfoldable pub check_embedder : FileConfig F → Option ConfigError
  check_embedder c =
      if str_eq c.embedder.backend "gemini"
      then or_else (fail_if (is_nil c.embedder.gemini.api_key) api_key_required)
          (fail_if (int_ltb c.embedder.gemini.dim (pos 1)) gemini_dim)
      else if str_eq c.embedder.backend "fake"
      then fail_if (int_ltb c.embedder.fake.dim (pos 1)) fake_dim
      else some unsupported_embedder

-- `enabledNames`, in the order of the visits.
unfoldable pub enabled_names : Dict TransportConfig → List String
enabled_names [] = []
enabled_names ((name, t) ∷ ts) =
    let rest = enabled_names ts in if t.enabled then name ∷ rest else rest

-- The loop over the enabled names, with the transports that they name.
unfoldable pub check_addrs : Dict TransportConfig → Option ConfigError
check_addrs [] = none
check_addrs ((name, t) ∷ ts) =
    or_else
      (fail_if (t.enabled && (not (str_eq name stdio) && str_eq t.addr "")) (missing_addr name))
      (check_addrs ts)

module _ (f : Float) where
  unfoldable pub check_numbers : FileConfig f.F → Option ConfigError
  check_numbers c =
      or_else (fail_if (int_ltb c.vector_index.flat_scan_threshold (pos 0)) flat_scan_threshold) (
        or_else
          (fail_if
            (int_ltb c.memory.chunk_window_size (pos 1) || int_ltb c.memory.chunk_stride (pos 1))
            chunking)
          (fail_if (f.le c.memory.weight_cap f.nought) weight_cap))

  unfoldable pub check_transports : FileConfig f.F → Option ConfigError
  unfolding enabled_names
  check_transports c =
      or_else (fail_if (is_nil c.server.transports) no_transport)
        (fail_if (is_nil (enabled_names c.server.transports)) none_enabled)

  unfoldable pub check_stdio : FileConfig f.F → Option ConfigError
  unfolding enabled_names contains
  check_stdio c =
      let names = enabled_names c.server.transports in
      fail_if (contains names stdio && ltb 1 (length names)) stdio_exclusive

unfoldable pub check_declared : Dict TenantKeyConfig → List String → Option ConfigError
check_declared keys [] = none
check_declared keys (k ∷ ks) =
    or_else (fail_if (not (is_present (get k keys))) (undeclared_key k)) (check_declared keys ks)

unfoldable pub check_sets : Dict TenantKeyConfig → List (List String) → Option ConfigError
unfolding check_declared
check_sets keys [] = none
check_sets keys (set ∷ sets) =
    or_else (fail_if (is_nil set) empty_set)
      (or_else (check_declared keys set) (check_sets keys sets))

-- `regexp.Compile`: the function that a pattern computes, if it is well formed.
module _ (compile : String → Option (String → Bool)) where
  unfoldable pub check_patterns : Dict TenantKeyConfig → Option ConfigError
  check_patterns [] = none
  check_patterns ((name, k) ∷ keys) =
      or_else
        (fail_if (not (str_eq k.pattern "") && not (is_present (compile k.pattern)))
          (bad_pattern name))
        (check_patterns keys)

  unfoldable pub validate_tenant : TenantSchemaConfig → Option ConfigError
  unfolding is_configured check_patterns check_sets
  validate_tenant t =
      if not (is_configured t)
      then none
      else or_else (check_patterns t.keys) (check_sets t.keys t.one_of)

  unfoldable pub validate : (f : Float) → FileConfig f.F → Option ConfigError
  unfolding check_storage check_embedder check_numbers check_transports validate_tenant check_stdio
      check_addrs
  validate f c = or_else (check_storage c) (
      or_else (check_embedder c) (
        or_else (check_numbers f c) (
          or_else (check_transports f c) (
            or_else (validate_tenant c.tenant)
              (or_else (check_stdio f c) (check_addrs c.server.transports))))))

-- `EmbedderDim`.
unfoldable pub embedder_dim : {F : Type 0} → FileConfig F → ℤ
embedder_dim c =
    if str_eq c.embedder.backend "gemini"
    then c.embedder.gemini.dim
    else if str_eq c.embedder.backend "fake"
    then c.embedder.fake.dim
    else pos 0
