-- ===== src/Storage/Messages.antt =====
-- The :Message and :TenantInfo rows of internal/storage/neo4j/graph.go, with their encoders and
-- decoders.
use memmy.Prelude.{
  ◌≡◌, ◌≢◌, String, str_eq, Bool, ◌&&◌, Option, none, some, List, [], ◌∷◌, if◌then◌else◌,
}
use memmy.Prelude.Dict.{Dict, get, Distinct}
use memmy.Chunker.Text.{Text}
use memmy.Types.{Message, TenantInfo}
use memmy.Types.Instant.{Time, to_millis}

-- `json.Marshal` of a map of strings, and `json.Unmarshal` into one, which the package
-- `encoding/json` implements. A text that is not JSON leaves the map nil.
pub record Json : Type 0 where
  pub marshal : Dict String → Text
  pub unmarshal : Text → Dict String

-- A map, which has a key once, is read back with the same entries, in whatever order, and its text
-- is not empty.
pub record IsJson (j : Json) : Type 0 where
  pub unmarshal-marshal :
      (m : Dict String) → Distinct m → (k : String) → get k (j.unmarshal (j.marshal m)) ≡ get k m
  pub marshal-ne-nil : (m : Dict String) → j.marshal m ≢ []

pub record MessageRow : Type 0 where
  pub tenant : String
  pub id : String
  pub text : Text
  pub metadata_json : Text
  pub created_at : Time

pub record TenantRow : Type 0 where
  pub id : String
  pub tuple_json : Text
  pub created_at : Time

module _ (j : Json) where
  -- `if raw != "" { json.Unmarshal(raw, &m) }`.
  unfoldable pub decode_map : Text → Dict String
  decode_map [] = []
  decode_map (c ∷ raw) = j.unmarshal (c ∷ raw)

  unfoldable pub encode_message : Message → MessageRow
  unfolding to_millis
  encode_message m = record {
    tenant = m.tenant_id;
    id = m.id;
    text = m.text;
    metadata_json = j.marshal m.metadata;
    created_at = to_millis m.created_at;
  }

  unfoldable pub decode_message : MessageRow → Message
  unfolding decode_map
  decode_message r = record {
    id = r.id;
    tenant_id = r.tenant;
    text = r.text;
    metadata = decode_map r.metadata_json;
    created_at = r.created_at;
  }

  unfoldable pub encode_tenant : TenantInfo → TenantRow
  unfolding to_millis
  encode_tenant t = record {
    id = t.id;
    tuple_json = j.marshal t.tuple;
    created_at = to_millis t.created_at;
  }

  unfoldable pub decode_tenant : TenantRow → TenantInfo
  unfolding decode_map
  decode_tenant r = record { id = r.id; tuple = decode_map r.tuple_json; created_at = r.created_at }

abbrev pub is_message : String → String → MessageRow → Bool
is_message tenant id m = str_eq m.tenant tenant && str_eq m.id id

unfoldable pub find_message : String → String → List MessageRow → Option MessageRow
find_message tenant id [] = none
find_message tenant id (m ∷ ms) =
    if is_message tenant id m then some m else find_message tenant id ms

unfoldable pub merge_message_row : MessageRow → List MessageRow → List MessageRow
merge_message_row new [] = new ∷ []
merge_message_row new (m ∷ ms) =
    if is_message new.tenant new.id m then new ∷ ms else m ∷ merge_message_row new ms

unfoldable pub find_tenant : String → List TenantRow → Option TenantRow
find_tenant id [] = none
find_tenant id (t ∷ ts) = if str_eq t.id id then some t else find_tenant id ts

unfoldable pub merge_tenant_row : TenantRow → List TenantRow → List TenantRow
merge_tenant_row new [] = new ∷ []
merge_tenant_row new (t ∷ ts) = if str_eq t.id new.id then new ∷ ts else t ∷ merge_tenant_row new ts
