-- ===== src/Tests/Calls.antt =====
-- internal/transport/mcp: runs and instances.
use memmy.Prelude.{◌≡◌, refl, String, true, Option, none, some, List, [], ◌∷◌}
use memmy.Prelude.Int.{ℤ}
use memmy.Prelude.Dict.{get}
use memmy.Storage.Session.{Store}
use memmy.Storage.Counters.{IsCounted}
use memmy.Storage.Rows.{PropertyGraph}
use memmy.Service.Tenant.{TenantSchema, unknown_key, validate, contains}
use memmy.Service.Request.{codes, is_blank}
use memmy.Transport.{corrected, Adapter}
use memmy.Transport.Call.{Call, write_call, reinforce_call, handle}
use memmy.Transport.Refused.{handle_invalid}
use memmy.Transport.Counted.{no_call, then_call, Calls-IsCounted}
use memmy.Tests.Samples.{memory-IsCypher}
use memmy.Tests.Stores.{linked, linked-IsCounted}
use memmy.Tests.Requests.{server, linked_world}
use memmy.Tests.Tenants.{schema}

abbrev adapter_with : Option TenantSchema → Adapter
adapter_with s = record {
  svc = record server { schema = s };
  tenant_schema = s;
  parse_rfc3339 = λ t. some 1;
  marshal = λ v. codes "{}";
  payload = λ e expected. none;
  minimal = λ e. codes "tenant_invalid";
}

abbrev user : List (String × String)
user = ("user", "b") ∷ []

abbrev note : Call (adapter_with none)
note = write_call (record { tenant = user; message = "One. Two."; metadata = [] })

abbrev bump : Call (adapter_with none)
bump = reinforce_call (record { tenant = user; node_id = "a" })

abbrev rejected : Call (adapter_with (some schema))
rejected = write_call (record { tenant = user; message = "One."; metadata = [] })

handle_invalid_example :
    handle (adapter_with (some schema)) 0 rejected linked_world
    ≡ (corrected (record { is_error = true; text = codes "tenant_invalid" }), linked_world)
unfolding validate get contains is_blank
handle_invalid_example =
    handle_invalid (adapter_with (some schema)) (unknown_key "user") 0 rejected linked_world refl
      refl refl

abbrev written : Store (PropertyGraph ℤ)
written = (handle (adapter_with none) 0 note linked_world).1

Calls-IsCounted_example : IsCounted (handle (adapter_with none) 0 bump written).1.db
Calls-IsCounted_example =
    Calls-IsCounted (adapter_with none) memory-IsCypher linked
      (handle (adapter_with none) 0 bump written).1.db linked-IsCounted
      (then_call (then_call no_call note tt 0 linked_world refl refl) bump tt 0 written refl refl)
