-- ===== src/Transport.antt =====
-- internal/transport/mcp/mcp.go: the handlers of the tools.
pub mod Wire
pub mod Call
pub mod Refused
pub mod Counted
use memmy.Prelude.{
  ℕ, String, str_eq, Bool, true, false, Option, none, some, List, [], map, if◌then◌else◌,
}
use memmy.Prelude.Int.{ℤ}
use memmy.Prelude.Dict.{Dict}
use memmy.Chunker.Text.{Text}
use memmy.Types.Instant.{Time}
use memmy.Storage.Session.{Error, tenant_invalid, message, Result, ok, err, Store}
use memmy.Service.Tenant.{TenantSchema, ErrTenantInvalid}
use memmy.Service.Request.{Service, Action}
use memmy.Service.Recall.Types.{RecallHit, ScoreBreakdown, RecallRequest}
use memmy.Service.Recall.Pipeline.{recall}
use memmy.Service.Write.{WriteResult, write}
use memmy.Service.Forget.{ForgetRequest, ForgetResult, forget}
use memmy.Service.Explicit.{BumpResult, reinforce, demote}
use memmy.Service.Mark.{MarkResult, mark}
use memmy.Service.Stats.{StatsResult, stats}
use memmy.Transport.Wire.{
  WriteArgs, WriteOut, RecallArgs, ForgetArgs, ForgetOut, StatsArgs, NodeArgs, MarkOut, HitScore,
  HitOut, RecallOut, StatsOut, NodeOut, MarkArgs,
}

-- `mcpsdk.CallToolResult` with one text.
pub record CallToolResult : Type 0 where
  pub is_error : Bool
  pub text : Text

-- What a handler returns: an error, a result that tells the client about its error, or a result with
-- the structured output. `unfinished` is a search of the model that has run out of fuel.
pub data Reply (A : Type 0) : Type 0 where
  refused : Error → Reply A
  corrected : CallToolResult → Reply A
  answered : CallToolResult → A → Reply A
  unfinished : Reply A

-- `time.Parse` with RFC 3339 and `json.Marshal`; `payload` is `ErrTenantInvalid.Payload` with the
-- schema's JSON rendering, none for an error of it, and `minimal` the fallback's JSON.
pub record Adapter : Type 1 where
  pub svc : Service
  pub tenant_schema : Option TenantSchema
  pub parse_rfc3339 : String → Option Time
  pub marshal : {A : Type 0} → A → Text
  pub payload : ErrTenantInvalid → Option TenantSchema → Option Text
  pub minimal : ErrTenantInvalid → Text

module _ (a : Adapter) where
  open a use {svc}

  abbrev pub F : Type 0
  F = svc.float.F

  abbrev pub Handler : Type 0 → Type 0
  Handler A = Store svc.database.Db → Reply A × Store svc.database.Db

  abbrev pub refuse : {A : Type 0} → String → Handler A
  refuse m w = (refused (message m), w)

  abbrev pub or_minimal : ErrTenantInvalid → Option Text → Text
  or_minimal e none = a.minimal e
  or_minimal e (some p) = p

  unfoldable pub tenant_error_result : Error → Option CallToolResult
  tenant_error_result (tenant_invalid e) =
      some (record { is_error = true; text = or_minimal e (a.payload e a.tenant_schema) })
  tenant_error_result e = none

  unfoldable pub summary : {A : Type 0} → A → CallToolResult
  summary v = record { is_error = false; text = a.marshal v }

  abbrev pub failed : {A : Type 0} → Error → Option CallToolResult → Reply A
  failed e none = refused e
  failed e (some r) = corrected r

  -- The error of the service, or its output as the result.
  abbrev pub replied : {A B : Type 0} → (A → Reply B) → Result A → Reply B
  replied give (ok out) = give out
  replied give (err e) = failed e (tenant_error_result e)

  abbrev pub calling : {A B : Type 0} → Action svc A → (A → Reply B) → Handler B
  calling act give w = let (r, w1) = act w in (replied give r, w1)

  unfoldable pub handle_write : WriteArgs → Handler WriteOut
  unfolding write tenant_error_result summary
  handle_write args =
      if str_eq args.message ""
      then refuse "memory.write: message required"
      else calling
          (write svc
            (record { tenant = args.tenant; message = args.message; metadata = args.metadata }))
          (λ out.
            answered (summary out)
              (record { message_id = out.message_id; node_ids = out.node_ids }))

  abbrev pub hit_out : RecallHit F → HitOut F
  hit_out r = record {
    node_id = r.node_id;
    text = r.text;
    source_msg_id = r.source_msg_id;
    source_text = r.source_text;
    score = r.score;
    score_breakdown = record {
      sim = r.score_breakdown.sim;
      node_weight = r.score_breakdown.node_weight;
      graph_mult = r.score_breakdown.graph_mult;
      depth = r.score_breakdown.depth;
    };
    path = r.path;
  }

  abbrev pub recalled : Option (List (RecallHit F)) → Reply (RecallOut F)
  recalled none = unfinished
  recalled (some hits) = answered (summary hits) (record { results = map hit_out hits })

  abbrev pub recall_request : RecallArgs → RecallRequest
  recall_request args = record {
    tenant = args.tenant;
    query = args.query;
    k = args.k;
    hops = args.hops;
    oversample_n = args.oversample;
  }

  -- With the fuel of `recall`.
  unfoldable pub handle_recall : ℕ → RecallArgs → Handler (RecallOut F)
  unfolding recall tenant_error_result summary
  handle_recall fuel args =
      if str_eq args.query ""
      then refuse "memory.recall: query required"
      else calling (recall svc fuel (recall_request args)) recalled

  abbrev pub forget_request : ForgetArgs → Time → ForgetRequest
  forget_request args before = record {
    tenant = args.tenant;
    message_id = args.message_id;
    before = before;
  }

  abbrev pub forgotten : ForgetResult → Reply ForgetOut
  forgotten out = answered (summary out) (record {
    deleted_nodes = out.deleted_nodes;
    deleted_edges = out.deleted_edges;
    deleted_vectors = out.deleted_vectors;
  })

  abbrev pub forgetting : ForgetArgs → Time → Handler ForgetOut
  forgetting args before = calling (forget svc (forget_request args before)) forgotten

  abbrev pub forgetting_parsed : ForgetArgs → Option Time → Handler ForgetOut
  forgetting_parsed args none = refuse "memory.forget: invalid before timestamp"
  forgetting_parsed args (some t) = forgetting args t

  unfoldable pub handle_forget : ForgetArgs → Handler ForgetOut
  unfolding forget tenant_error_result summary
  handle_forget args =
      if str_eq args.before ""
      then forgetting args 0
      else forgetting_parsed args (a.parse_rfc3339 args.before)

  abbrev pub bumped_out : BumpResult svc → NodeOut F
  bumped_out out = record {
    node_id = out.node_id;
    new_weight = out.new_weight;
    skipped_refractory = out.skipped_refractory;
  }

  unfoldable pub handle_reinforce : NodeArgs → Handler (NodeOut F)
  unfolding reinforce tenant_error_result summary
  handle_reinforce args =
      if str_eq args.node_id ""
      then refuse "memory.reinforce: node_id required"
      else calling (reinforce svc args.tenant args.node_id)
          (λ out. answered (summary (bumped_out out)) (bumped_out out))

  unfoldable pub handle_demote : NodeArgs → Handler (NodeOut F)
  unfolding demote tenant_error_result summary
  handle_demote args =
      if str_eq args.node_id ""
      then refuse "memory.demote: node_id required"
      else calling (demote svc args.tenant args.node_id)
          (λ out. answered (summary (bumped_out out)) (bumped_out out))

  abbrev pub marked_out : MarkResult → MarkOut
  marked_out out = record {
    nodes_affected = out.nodes_affected;
    nodes_skipped_refractory = out.nodes_skipped_refractory;
  }

  abbrev pub marking : MarkArgs F → Option Time → Handler MarkOut
  marking args none = refuse "memory.mark: invalid since timestamp"
  marking args (some since) =
      if svc.float.le args.strength svc.float.nought
      then refuse "memory.mark: strength must be > 0"
      else calling
          (mark svc (record { tenant = args.tenant; since = since; strength = args.strength }))
          (λ out. answered (summary (marked_out out)) (marked_out out))

  unfoldable pub handle_mark : MarkArgs F → Handler MarkOut
  unfolding mark tenant_error_result summary
  handle_mark args =
      if str_eq args.since ""
      then refuse "memory.mark: since required (RFC3339 timestamp)"
      else marking args (a.parse_rfc3339 args.since)

  unfoldable pub handle_stats : StatsArgs → Handler (StatsOut F)
  unfolding stats tenant_error_result summary
  handle_stats args = calling (stats svc args.tenant) (λ out. answered (summary out) (record {
    node_count = out.node_count;
    memory_edge_count = out.memory_edge_count;
    hnsw_size = out.hnsw_size;
    avg_node_weight = out.avg_node_weight;
    avg_edge_weight = out.avg_edge_weight;
  }))
