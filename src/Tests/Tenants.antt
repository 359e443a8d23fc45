-- ===== src/Tests/Tenants.antt =====
-- The tenant schema and the canonical form: runs and instances.
use Prim.Native.String.{String}
use Prim.Native.Char.{code}
use mathlib.Core.List.Perm
use memmy.Prelude.{◌≡◌, ◌≢◌, refl, ◌↔◌, arith, [], ◌∷◌, ◌++◌, none, some, false, str_eq}
use memmy.Prelude.Dict.{get}
use memmy.Chunker.Text.{Text, trim_space}
use memmy.Types.Canonical.{Tuple, canonical_tenant}
use memmy.Types.Canonical.Order.{
  canonical_tenant-perm, canonical_tenant_unstable, canonical_tenant_collision,
}
use memmy.Service.Tenant.{
  TenantKey, TenantSchema, validate, contains, unknown_key, enum_mismatch, one_of_multiple_match,
}
use memmy.Service.Tenant.Accepts.{Accepts, validate-Accepts}

abbrev codes : String → Text
codes String.[] = []
codes (String.◌∷◌ c s) = code c ∷ codes s

-- The keys of memmy.example.yaml, with a pattern that is one word.
abbrev project : TenantKey
project = record {
  description = "";
  pattern = some (λ v. str_eq v "/src/memmy");
  pattern_raw = "^/.+";
  enum = [];
  required = false;
}

abbrev scope : TenantKey
scope = record {
  description = "";
  pattern = none;
  pattern_raw = "";
  enum = "global" ∷ [];
  required = false;
}

abbrev pub schema : TenantSchema
schema = record {
  description = "";
  keys = ("project", project) ∷ ("scope", scope) ∷ [];
  one_of = ("project" ∷ []) ∷ ("scope" ∷ []) ∷ [];
}

verdicts :
    (validate (some schema) (("project", "/src/memmy") ∷ []) ≡ none)
    × (validate (some schema) (("user", "a") ∷ []) ≡ some (unknown_key "user"))
    × (validate (some schema) (("scope", "local") ∷ []) ≡ some (enum_mismatch "scope" "local"))
    × (validate (some schema) (("scope", "global") ∷ ("project", "/src/memmy") ∷ [])
        ≡ some one_of_multiple_match)
unfolding validate get contains
verdicts = (refl, refl, refl, refl)

validate-Accepts_example :
    (validate none (("scope", "global") ∷ []) ≡ none)
    × ((validate (some schema) (("scope", "global") ∷ []) ≡ none)
        ↔ Accepts schema (("scope", "global") ∷ []))
unfolding get
validate-Accepts_example =
    validate-Accepts schema (("scope", "global") ∷ []) (refl, tt) (refl, (refl, tt))

abbrev agent_user : Tuple
agent_user = (codes "user", codes " ada") ∷ (codes "agent ", codes "x") ∷ []

abbrev user_agent : Tuple
user_agent = (codes "agent ", codes "x") ∷ (codes "user", codes " ada") ∷ []

canonical_form : canonical_tenant agent_user ≡ codes "agent=x" ++ 0 ∷ codes "user=ada"
unfolding canonical_tenant
canonical_form = refl

canonical_tenant-perm_example : canonical_tenant agent_user ≡ canonical_tenant user_agent
unfolding trim_space
canonical_tenant-perm_example =
    canonical_tenant-perm ((ground arith, tt), (tt, tt)) (Perm.swap _ _ _)

canonical_tenant_unstable_example :
    canonical_tenant ((codes "a", codes "1") ∷ (codes " a", codes "2") ∷ [])
    ≢ canonical_tenant ((codes " a", codes "2") ∷ (codes "a", codes "1") ∷ [])
unfolding trim_space
canonical_tenant_unstable_example =
    canonical_tenant_unstable (codes "a", codes "1") (codes " a", codes "2") refl (ground arith)

canonical_tenant_collision_example :
    canonical_tenant ((codes "a", codes "b" ++ b'=' ∷ codes "c") ∷ [])
    ≡ canonical_tenant ((codes "a" ++ b'=' ∷ codes "b", codes "c") ∷ [])
unfolding trim_space
canonical_tenant_collision_example =
    canonical_tenant_collision (codes "a") (codes "b") (codes "c") refl refl refl refl
