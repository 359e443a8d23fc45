-- ===== src/Service/Request.antt =====
-- `Service` of internal/service/service.go with its ports, and the check of a request's tenant.
use Prim.Native.Char.{code}
use memmy.Prelude.{
  ◌+◌, List, ◌∷◌, [], ℕ, String, Bool, Option, none, some, [], ◌∷◌, if◌then◌else◌, map,
}
use memmy.Prelude.Dict.{Dict}
use memmy.Float.{Float}
use memmy.Chunker.Text.{Text, trim_space}
use memmy.Types.Canonical.{canonical_tenant}
use memmy.Types.Instant.{Time}
use memmy.Storage.Database.{Database}
use memmy.Storage.Session.{
  message, tenant_invalid, Result, ok, err, M, pure, throw, now, ◌>>=◌, ◌>>◌,
}
use memmy.Storage.Graph.Message.{upsert_tenant}
use memmy.Types.{TenantInfo}
use memmy.Prelude.Int.{ℤ}
use memmy.Storage.Messages.{Json}
use memmy.Service.Config.{Config}
use memmy.Service.Tenant.{TenantSchema, ErrTenantInvalid, validate, is_nil}

-- The service asks for `retrieval_document` and `retrieval_query`.
pub data EmbedTask : Type 0 where
  unspecified retrieval_document retrieval_query semantic_similarity classification clustering
        code_retrieval_query question_answering fact_verification :
      EmbedTask

-- The graph port is the adapter over `database`. `commits` and `clock` are the driver and the clock
-- of the run; `tenant_hash` is the first half of SHA-256, in hexadecimal.
pub record Service : Type 1 where
  pub float : Float
  pub database : Database float
  pub commits : ℕ → Bool
  pub clock : ℕ → Time
  pub cfg : Config (float.F)
  pub schema : Option TenantSchema
  pub tenant_hash : Text → String
  -- `encoding/json`, the embedder, and `ulid.New` at a time with the entropy of a draw.
  pub json : Json
  pub embed : EmbedTask → List Text → Result (List (List float.F))
  pub ulid : Time → ℕ → String
  -- `sort.Slice`, which package `sort` implements, with its test for "less"; and the order in which a
  -- `range` loop visits a map.
  pub sort_slice : {A : Type 0} → (A → A → Bool) → List A → List A
  pub visiting : {A : Type 0} → List A → List A
  -- `Storage.dim` and `Storage.flatScanThreshold`.
  pub dim : ℕ
  pub flat_scan_threshold : ℤ

abbrev pub codes : String → Text
codes String.[] = []
codes (String.◌∷◌ c s) = code c ∷ codes s

-- `strings.TrimSpace(s) == ""`.
unfoldable pub is_blank : String → Bool
unfolding trim_space
is_blank s = is_nil (trim_space (codes s))

-- `types.TenantID`.
unfoldable pub tenant_id : Service → Dict String → String
unfolding canonical_tenant
tenant_id s tuple = s.tenant_hash (canonical_tenant (map (λ e. (codes e.0, codes e.1)) tuple))

abbrev pub accepted : Option ErrTenantInvalid → String → Result String
accepted none id = ok id
accepted (some e) id = err (tenant_invalid e)

unfoldable pub require_valid_tenant : Service → Dict String → Result String
unfolding validate tenant_id
require_valid_tenant s tuple =
    if is_nil tuple
    then err (message "service: tenant tuple is empty")
    else accepted (validate s.schema tuple) (tenant_id s tuple)

abbrev pub Action : Service → Type 0 → Type 0
Action s A = M s.database.Db A

abbrev pub tenant_info : Service → Dict String → Time → TenantInfo
tenant_info s tuple t = record { id = tenant_id s tuple; tuple = tuple; created_at = t }

abbrev pub registered : (s : Service) → Option ErrTenantInvalid → Dict String → Action s String
registered s none tuple = do
  t ← now s.clock
  upsert_tenant s.float s.database s.json s.commits (tenant_info s tuple t)
  pure (tenant_id s tuple)
registered s (some e) tuple = throw (tenant_invalid e)

-- `resolveTenant`, which registers the tenant too.
unfoldable pub resolve_tenant : (s : Service) → Dict String → Action s String
unfolding validate tenant_id
resolve_tenant s tuple =
    if is_nil tuple
    then throw (message "service: tenant tuple is empty")
    else registered s (validate s.schema tuple) tuple

-- `newID`: every reading of the clock comes with a draw of its own.
abbrev pub new_id : (s : Service) → Action s String
new_id s w = (ok (s.ulid (s.clock w.readings) w.readings), record w { readings = w.readings + 1 })
