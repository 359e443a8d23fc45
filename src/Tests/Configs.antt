-- ===== src/Tests/Configs.antt =====
-- internal/config/config.go: runs and instances.
use Prim.Native.Char.{code}
use memmy.Prelude.{
  ◌≡◌, ◌↔◌, refl, String, str_eq, Bool, true, false, Option, none, some, [], ◌∷◌, if◌then◌else◌,
}
use memmy.Prelude.Int.{ℤ}
use memmy.Prelude.Dict.{get}
use memmy.Chunker.Text.{Text}
use memmy.Service.Tenant.{TenantSchema}
use memmy.Config.{TenantSchemaConfig, TenantKeyConfig, FileConfig, default}
use memmy.Config.Env.{reference, expand_loop, expand_env}
use memmy.Config.Env.Meaning.{Expands, expand_env-Expands}
use memmy.Config.Validate.{
  stdio_exclusive, password_required, is_configured, validate_tenant, validate,
}
use memmy.Config.Validate.Accepts.{Valid, validate-Valid}
use memmy.Config.Build.{service_config_from_yaml, new_tenant_schema_from_config}
use memmy.Config.Build.Agree.{Declares, new_tenant_schema_lem}
use memmy.Service.Config.{default_config}
use memmy.Tests.Samples.{milli}

abbrev codes : String → Text
codes String.[] = []
codes (String.◌∷◌ c s) = code c ∷ codes s

-- One variable is set.
abbrev env : Text → Text
env name = if reads name then codes "s3cret" else []
  where
    reads : Text → Bool
    reads [] = false
    reads (c ∷ s) = true

expansions :
    (expand_env env (codes "${PW}") ≡ some (codes "s3cret"))
    × (expand_env env (codes "a${PW}b${}c") ≡ some (codes "as3cretbc"))
    × (expand_env env (codes "a${PW") ≡ some (codes "a${PW"))
    × (expand_env env (codes "plain$") ≡ some (codes "plain$"))
unfolding expand_env expand_loop reference
expansions = (refl, refl, refl, refl)

expand_env-Expands_example :
    (out : Text) × (expand_env env (codes "a${PW}") ≡ some out) × Expands env (codes "a${PW}") out
expand_env-Expands_example = expand_env-Expands env (codes "a${PW}")

-- Every pattern is read as the word that it is.
abbrev compile : String → Option (String → Bool)
compile p = some (λ v. str_eq v p)

abbrev project : TenantKeyConfig
project = record { description = ""; pattern = "x"; enum = []; required = true }

abbrev tenant : TenantSchemaConfig
tenant = record {
  description = "";
  keys = ("project", project) ∷ [];
  one_of = ("project" ∷ []) ∷ [];
}

abbrev served : FileConfig ℤ
served = record (default milli) {
  server = record {
    transports =
        ("mcp", record { enabled = true; addr = ":8080" })
        ∷ ("stdio", record { enabled = false; addr = "" })
        ∷ [];
  };
  storage = record (default milli).storage {
    neo4j = record (default milli).storage.neo4j { password = codes "pw" };
  };
  tenant = tenant;
}

verdicts :
    (validate compile milli served ≡ none)
    × (validate compile milli (default milli) ≡ some password_required)
    × (validate compile milli (record served {
      server = record {
        transports =
            ("mcp", record { enabled = true; addr = ":8080" })
            ∷ ("stdio", record { enabled = true; addr = "" })
            ∷ [];
      };
    })
        ≡ some stdio_exclusive)
unfolding validate default get
verdicts = (refl, refl, refl)

validate-Valid_example : (validate compile milli served ≡ none) ↔ Valid compile milli served
unfolding get
validate-Valid_example = validate-Valid compile milli served (refl, (refl, tt)) (refl, tt)

-- The defaults of the two packages are the same.
defaults : service_config_from_yaml milli (default milli) ≡ default_config milli
unfolding service_config_from_yaml default default_config
defaults = refl

new_tenant_schema_lem_example :
    (s : TenantSchema) × (new_tenant_schema_from_config compile tenant ≡ some (some s))
    × (s.description ≡ "")
    × (s.one_of ≡ ("project" ∷ []) ∷ [])
    × ((k : String) → Declares compile (get k tenant.keys) (get k s.keys))
unfolding validate_tenant is_configured get
new_tenant_schema_lem_example = new_tenant_schema_lem compile tenant refl refl
