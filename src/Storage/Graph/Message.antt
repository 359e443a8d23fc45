-- ===== src/Storage/Graph/Message.antt =====
-- The operations of internal/storage/neo4j/graph.go on messages and on tenants.
pub mod Round
use memmy.Prelude.{String, str_eq, Bool, Option, none, some, List, if◌then◌else◌, map, ℕ}
use memmy.Float.{Float}
use memmy.Types.{Message, TenantInfo}
use memmy.Storage.Messages.{
  Json, MessageRow, TenantRow, encode_message, decode_message, encode_tenant, decode_tenant,
}
use memmy.Storage.Database.{Database}
use memmy.Storage.Session.{
  Error, not_found, message, Result, ok, err, M, throw, with_write_session, with_read_session,
}

module _ (f : Float) (d : Database f) (j : Json) (commits : ℕ → Bool) where
  open d use {Db}

  abbrev pub found_message : Option MessageRow → Result Message
  found_message none = err not_found
  found_message (some r) = ok (decode_message j r)

  abbrev pub found_tenant : Option TenantRow → Result TenantInfo
  found_tenant none = err not_found
  found_tenant (some r) = ok (decode_tenant j r)

  unfoldable pub put_message : Message → M Db (Unit {0})
  unfolding encode_message
  put_message m =
      if str_eq m.id ""
      then throw (message "graph: message ID required")
      else if str_eq m.tenant_id ""
      then throw (message "graph: message TenantID required")
      else with_write_session commits (λ db. (ok tt, d.merge_message (encode_message j m) db))

  unfoldable pub get_message : String → String → M Db Message
  get_message tenant id =
      with_read_session commits (λ db. found_message (d.match_message tenant id db))

  unfoldable pub delete_message : String → String → M Db (Unit {0})
  delete_message tenant id =
      with_write_session commits (λ db. (ok tt, d.delete_message tenant id db))

  unfoldable pub upsert_tenant : TenantInfo → M Db (Unit {0})
  unfolding encode_tenant
  upsert_tenant t =
      if str_eq t.id ""
      then throw (message "graph: TenantInfo.ID required")
      else with_write_session commits (λ db. (ok tt, d.merge_tenant (encode_tenant j t) db))

  unfoldable pub get_tenant : String → M Db TenantInfo
  get_tenant id = with_read_session commits (λ db. found_tenant (d.match_tenant id db))

  unfoldable pub list_tenants : M Db (List TenantInfo)
  list_tenants = with_read_session commits (λ db. ok (map (decode_tenant j) (d.match_tenants db)))
