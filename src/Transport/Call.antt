-- ===== src/Transport/Call.antt =====
-- A call of one of the tools that `registerTools` adds.
use memmy.Prelude.{ℕ, String}
use memmy.Prelude.Dict.{Dict}
use memmy.Transport.{
  Adapter, Handler, handle_write, handle_recall, handle_forget, handle_reinforce, handle_demote,
  handle_mark, handle_stats,
}
use memmy.Transport.Wire.{
  WriteArgs, WriteOut, RecallArgs, RecallOut, ForgetArgs, ForgetOut, StatsArgs, StatsOut, NodeArgs,
  NodeOut, MarkArgs, MarkOut,
}

module _ (a : Adapter) where
  pub data Call : Type 0 where
    write_call : WriteArgs → Call
    recall_call : RecallArgs → Call
    forget_call : ForgetArgs → Call
    reinforce_call demote_call : NodeArgs → Call
    mark_call : MarkArgs a.svc.float.F → Call
    stats_call : StatsArgs → Call

  abbrev pub Output : Call → Type 0
  Output (write_call args) = WriteOut
  Output (recall_call args) = RecallOut a.svc.float.F
  Output (forget_call args) = ForgetOut
  Output (reinforce_call args) = NodeOut a.svc.float.F
  Output (demote_call args) = NodeOut a.svc.float.F
  Output (mark_call args) = MarkOut
  Output (stats_call args) = StatsOut a.svc.float.F

  abbrev pub tenant_of : Call → Dict String
  tenant_of (write_call args) = args.tenant
  tenant_of (recall_call args) = args.tenant
  tenant_of (forget_call args) = args.tenant
  tenant_of (reinforce_call args) = args.tenant
  tenant_of (demote_call args) = args.tenant
  tenant_of (mark_call args) = args.tenant
  tenant_of (stats_call args) = args.tenant

  -- `fuel` is for the search of a recall.
  unfoldable pub handle : ℕ → (c : Call) → Handler a (Output c)
  unfolding handle_write handle_recall handle_forget handle_reinforce handle_demote handle_mark
      handle_stats
  handle fuel (write_call args) = handle_write a args
  handle fuel (recall_call args) = handle_recall a fuel args
  handle fuel (forget_call args) = handle_forget a args
  handle fuel (reinforce_call args) = handle_reinforce a args
  handle fuel (demote_call args) = handle_demote a args
  handle fuel (mark_call args) = handle_mark a args
  handle fuel (stats_call args) = handle_stats a args
