-- ===== src/Storage/Graph/Message/Round.antt =====
-- A message is read back as it was written.
use memmy.Prelude.{
  ℕ, ◌+◌, ◌≡◌, refl, sym, ap, ◌∙◌, String, str_eq, eq_iff, Bool, true, false, none, some, List, [],
  ◌∷◌, arith,
}
use memmy.Prelude.Dict.{Dict, get, Distinct}
use memmy.Float.{Float}
use memmy.Types.{Message}
use memmy.Types.Instant.{to_millis}
use memmy.Storage.Messages.{
  Json, IsJson, MessageRow, decode_map, encode_message, decode_message, is_message, find_message,
  merge_message_row,
}
use memmy.Storage.Statement
use memmy.Storage.Rows.{PropertyGraph, removing}
use memmy.Storage.Database.{Database, IsCypher}
use memmy.Storage.Session.{not_found, ok, err, Store, ◌>>◌, with_write_session, with_read_session}
use memmy.Storage.Graph.Message.{put_message, get_message, delete_message}

find-merge_message :
    (new : MessageRow) (ms : List MessageRow)
    → find_message new.tenant new.id (merge_message_row new ms) ≡ some new
unfolding find_message merge_message_row
find-merge_message new [] = ground (arith, eq_iff new.tenant new.tenant, eq_iff new.id new.id)
find-merge_message new (m ∷ ms) =
    ground (arith, eq_iff new.tenant new.tenant, eq_iff new.id new.id, find-merge_message new ms)

find-removing_message :
    (t i : String) (ms : List MessageRow) → find_message t i (removing (is_message t i) ms) ≡ none
unfolding find_message
find-removing_message t i [] = refl
find-removing_message t i (m ∷ ms) = ground (arith, find-removing_message t i ms)

module _ (j : Json) (law : IsJson j) where
  get-decode_map :
      (m : Dict String) (k : String) → Distinct m → get k (decode_map j (j.marshal m)) ≡ get k m
  unfolding decode_map
  get-decode_map m k once = read (j.marshal m) refl
    where
      read : (raw : List ℕ) → j.marshal m ≡ raw → get k (decode_map j raw) ≡ get k m
      read [] q = absurd (law.marshal-ne-nil m q)
      read (c ∷ raw) q = ap (λ r. get k (j.unmarshal r)) (sym q) ∙ law.unmarshal-marshal m once k

  -- What is read back has its metadata as they are decoded.
  decode-encode_message :
      (m : Message)
      → decode_message j (encode_message j m) ≡ record m {
        metadata = decode_map j (j.marshal m.metadata);
        created_at = to_millis m.created_at;
      }
  unfolding decode_message encode_message
  decode-encode_message m = refl

  module _ (f : Float) (d : Database f) (cy : IsCypher f d) (commits : ℕ → Bool) where
    open d use {Db}

    found-put :
        (m : Message) (db : Db)
        → d.match_message m.tenant_id m.id (d.merge_message (encode_message j m) db)
          ≡ some (encode_message j m)
    unfolding encode_message Statement.merge_message
    found-put m db =
        cy.match_message_lem m.tenant_id m.id (d.merge_message (encode_message j m) db)
        ∙ ap (λ (g : PropertyGraph f.F). find_message m.tenant_id m.id g.messages)
            (cy.merge_message_lem (encode_message j m) db)
        ∙ find-merge_message (encode_message j m) (d.view db).messages

    found-delete : (t i : String) (db : Db) → d.match_message t i (d.delete_message t i db) ≡ none
    unfolding Statement.delete_message
    found-delete t i db =
        cy.match_message_lem t i (d.delete_message t i db)
        ∙ ap (λ (g : PropertyGraph f.F). find_message t i g.messages) (cy.delete_message_lem t i db)
        ∙ find-removing_message t i (d.view db).messages

    -- `GetMessage` after `PutMessage` of a message with an identifier and a tenant, where both
    -- transactions commit, returns the message with its time in whole milliseconds and, if no key
    -- of the metadata is there twice, with the same metadata as a map; and after `DeleteMessage`
    -- it reports that there is none.
    pub get_message-put_message :
        (m : Message) (w : Store Db)
        → str_eq m.id "" ≡ false
        → str_eq m.tenant_id "" ≡ false
        → ((k : ℕ) → commits k ≡ true)
        → Distinct m.metadata
        → ((back : Dict String) × (((put_message f d j commits m
                  >> get_message f d j commits m.tenant_id m.id)
                w).0
              ≡ ok (record m { metadata = back; created_at = to_millis m.created_at }))
            × ((k : String) → get k back ≡ get k m.metadata))
          × (((delete_message f d j commits m.tenant_id m.id
                  >> get_message f d j commits m.tenant_id m.id)
                w).0
              ≡ err not_found)
    unfolding put_message get_message delete_message with_write_session with_read_session
    get_message-put_message m w named owned all once = (
      (
        decode_map j (j.marshal m.metadata),
        rw (named, owned, all w.transactions, all (w.transactions + 1), found-put m w.db)
            (ap ok (decode-encode_message m)),
        λ k. get-decode_map m.metadata k once,
      ),
      rw (all w.transactions, all (w.transactions + 1), found-delete m.tenant_id m.id w.db) refl,
    )
