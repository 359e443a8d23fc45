-- ===== src/Transport/Refused.antt =====
-- A call for a tenant that the schema rejects.
use memmy.Prelude.{
  if_both, ℕ, ◌≡◌, refl, ap, String, str_eq, eq_iff, true, false, some, ◌⊎◌, inl, inr,
}
use memmy.Prelude.Dict.{Dict}
use memmy.Types.Instant.{Time}
use memmy.Storage.Session.{tenant_invalid, Result, err, Store}
use memmy.Service.Tenant.{ErrTenantInvalid, validate, is_nil}
use memmy.Service.Request.{Service, is_blank, require_valid_tenant, resolve_tenant}
use memmy.Service.Recall.Types.{RecallRequest}
use memmy.Service.Recall.Pipeline.{recall}
use memmy.Service.Write.{write}
use memmy.Service.Forget.{ForgetRequest, forget}
use memmy.Service.Explicit.{bump_request, reinforce, demote}
use memmy.Service.Mark.{MarkRequest, mark}
use memmy.Service.Stats.{stats}
use memmy.Transport.{
  CallToolResult, Reply, corrected, Adapter, Handler, or_minimal, tenant_error_result, handle_write,
  handle_recall, handle_forget, handle_reinforce, handle_demote, handle_mark, handle_stats, replied,
}
use memmy.Transport.Wire.{WriteOut, RecallOut, ForgetOut}
use memmy.Transport.{
  recalled, recall_request, forgotten, forget_request, forgetting, forgetting_parsed,
}
use memmy.Transport.Call.{
  Call, tenant_of, handle, write_call, recall_call, forget_call, reinforce_call, demote_call,
  mark_call, stats_call,
}

module _ (s : Service) (tuple : Dict String) (e : ErrTenantInvalid) (there : is_nil tuple ≡ false)
    (bad : validate s.schema tuple ≡ some e) where
  invalid : require_valid_tenant s tuple ≡ err (tenant_invalid e)
  unfolding require_valid_tenant
  invalid = rw (there, bad) refl

  pub write-invalid :
      (message : String) (metadata : Dict String) (w : Store s.database.Db)
      → is_blank message ≡ false
      → write s (record { tenant = tuple; message = message; metadata = metadata }) w
        ≡ (err (tenant_invalid e), w)
  unfolding write resolve_tenant
  write-invalid m d w h = rw (h, there, bad) refl

  pub recall-invalid :
      (n : ℕ) (req : RecallRequest) (w : Store s.database.Db)
      → req.tenant ≡ tuple
      → is_blank req.query ≡ false
      → recall s n req w ≡ (err (tenant_invalid e), w)
  unfolding recall
  recall-invalid n req w t h = rw (h, t, invalid) refl

  pub forget-invalid :
      (req : ForgetRequest) (w : Store s.database.Db)
      → req.tenant ≡ tuple
      → forget s req w ≡ (err (tenant_invalid e), w)
  unfolding forget
  forget-invalid req w t = rw (t, invalid) refl

  pub bump_request-invalid :
      (missing : String) (delta : s.float.F) (id : String) (w : Store s.database.Db)
      → bump_request s missing delta tuple id w ≡ (err (tenant_invalid e), w)
  unfolding bump_request
  bump_request-invalid missing delta id w = rw invalid refl

  pub mark-invalid :
      (req : MarkRequest s) (w : Store s.database.Db)
      → req.tenant ≡ tuple
      → mark s req w ≡ (err (tenant_invalid e), w)
  unfolding mark
  mark-invalid req w t = rw (t, invalid) refl

  pub stats-invalid : (w : Store s.database.Db) → stats s tuple w ≡ (err (tenant_invalid e), w)
  unfolding stats
  stats-invalid w = rw (there, bad) refl

module _ (a : Adapter) (e : ErrTenantInvalid) where
  open a use {svc}

  -- The arguments pass the handler's own tests and those of the service that come before the tenant.
  abbrev pub Proceeds : Call a → Type 0
  Proceeds (write_call args) = is_blank args.message ≡ false
  Proceeds (recall_call args) = is_blank args.query ≡ false
  Proceeds (forget_call args) =
      (str_eq args.before "" ≡ true) ⊎ ((t : Time) × (a.parse_rfc3339 args.before ≡ some t))
  Proceeds (reinforce_call args) = str_eq args.node_id "" ≡ false
  Proceeds (demote_call args) = str_eq args.node_id "" ≡ false
  Proceeds (mark_call args) =
      (str_eq args.since "" ≡ false)
      × (svc.float.le args.strength svc.float.nought ≡ false)
      × ((t : Time) × (a.parse_rfc3339 args.since ≡ some t))
  Proceeds (stats_call args) = Unit

  -- Tells the client what is wrong with the tenant.
  abbrev pub correction : CallToolResult
  correction = record { is_error = true; text = or_minimal a e (a.payload e a.tenant_schema) }

  Corrects : {A : Type 0} → Store svc.database.Db → Reply A × Store svc.database.Db → Type 0
  Corrects w r = r ≡ (corrected correction, w)

  replied-Corrects :
      {A B : Type 0} (give : A → Reply B) (w : Store svc.database.Db)
      (r : Result A × Store svc.database.Db)
      → r ≡ (err (tenant_invalid e), w)
      → Corrects w (replied a give r.0, r.1)
  unfolding Corrects tenant_error_result
  replied-Corrects give w r h = ap (λ q. (replied a give q.0, q.1)) h

  nonempty : (m : String) → is_blank m ≡ false → str_eq m "" ≡ true → ⊥
  unfolding is_blank
  nonempty m h b = cc (ap is_blank ((eq_iff m "").0 b), h)

  -- A call of any tool, with a tenant that is not empty and that the schema rejects, and with
  -- arguments that pass the tests which come before the tenant's, returns a result that is marked as
  -- an error and tells the client what is wrong with the tenant, and runs no transaction.
  pub handle_invalid :
      (fuel : ℕ) (c : Call a) (w : Store svc.database.Db)
      → Proceeds c
      → is_nil (tenant_of a c) ≡ false
      → validate svc.schema (tenant_of a c) ≡ some e
      → handle a fuel c w ≡ (corrected correction, w)
  unfolding Corrects handle handle_write handle_recall handle_forget handle_reinforce handle_demote
      handle_mark handle_stats reinforce demote
  handle_invalid fuel (write_call args) w p there bad =
      if_both {A = Handler a WriteOut} (λ r. Corrects w (r w)) (str_eq args.message "")
        (λ b. absurd (nonempty args.message p b))
        (λ b.
          replied-Corrects _ w _
            (write-invalid svc args.tenant e there bad args.message args.metadata w p))
  handle_invalid fuel (recall_call args) w p there bad =
      if_both {A = Handler a (RecallOut svc.float.F)} (λ r. Corrects w (r w)) (str_eq args.query "")
        (λ b. absurd (nonempty args.query p b))
        (λ b.
          replied-Corrects (recalled a) w (recall svc fuel (recall_request a args) w)
            (recall-invalid svc args.tenant e there bad fuel (recall_request a args) w refl p))
  handle_invalid fuel (forget_call args) w p there bad =
      if_both {A = Handler a ForgetOut} (λ r. Corrects w (r w)) (str_eq args.before "")
        (λ b. forgetting_lem 0) (λ b. by_time b p)
    where
      forgetting_lem : (t : Time) → Corrects w (forgetting a args t w)
      forgetting_lem t =
          replied-Corrects (forgotten a) w (forget svc (forget_request a args t) w)
            (forget-invalid svc args.tenant e there bad (forget_request a args t) w refl)

      by_time :
          str_eq args.before "" ≡ false
          → Proceeds (forget_call args)
          → Corrects w (forgetting_parsed a args (a.parse_rfc3339 args.before) w)
      by_time b (inl p) = absurd (cc (b, p))
      by_time b (inr (t, h)) = rw h (forgetting_lem t)
  handle_invalid fuel (reinforce_call args) w p there bad =
      rw p (
        replied-Corrects _ w _
          (bump_request-invalid svc args.tenant e there bad _ _ args.node_id w))
  handle_invalid fuel (demote_call args) w p there bad =
      rw p (
        replied-Corrects _ w _
          (bump_request-invalid svc args.tenant e there bad _ _ args.node_id w))
  handle_invalid fuel (mark_call args) w (p, q, (t, h)) there bad =
      rw (p, h, q) (replied-Corrects _ w _ (mark-invalid svc args.tenant e there bad _ w refl))
  handle_invalid fuel (stats_call args) w p there bad =
      replied-Corrects _ w _ (stats-invalid svc args.tenant e there bad w)
