-- ===== src/ResourceControl/Interleaving/Safety.antt =====
-- internal/resourcecontrol/controller.go: what holds of the shared controller under every schedule.
use cliproxy_portal.Common.Float.{Float64}
use cliproxy_portal.Common.{ℕ, refl, sym, ap, arith, count_if_nil, pos, lookup}
use cliproxy_portal.ResourceControl.Policy.{Policy}
use cliproxy_portal.ResourceControl.Metrics.{Metrics}
use cliproxy_portal.ResourceControl.Controller.{State, record_event, set_policy, new_controller}
use cliproxy_portal.ResourceControl.Monitor.{update_metrics}
use cliproxy_portal.ResourceControl.Admission.Counters.{
  IsCounted, recount, event-IsCounted, model_done-IsCounted,
}
use cliproxy_portal.ResourceControl.Admission.Once.{
  acquire_request-IsCounted, finish-IsCounted, record_status-IsCounted,
}
use cliproxy_portal.ResourceControl.Interleaving.{
  gap, Call, acquires, dones, finishes, samples, configures, records, reports, Calls, nil, cons,
  run_call, run_calls, init,
}

module _ {F : Float64} where
  init-IsCounted : (p : Policy F) → IsCounted (init p)
  unfolding init new_controller lookup
  init-IsCounted p = record {
    active_eq = ap pos (sym (count_if_nil _));
    processing_eq = ap pos (sym (count_if_nil _));
    users_eq = λ u. ap pos (sym (count_if_nil _));
    users_tidy = λ u e. cc;
    settled = tt;
  }

  sample-IsCounted :
      (s : State F) (m : Metrics F) (now : ℕ)
      → IsCounted s
      → IsCounted (record s { ctl = update_metrics s.ctl m now })
  unfolding update_metrics
  sample-IsCounted s m now = recount s _ (ground arith) (ground arith) (ground arith) refl

  configure-IsCounted :
      (s : State F) (p : Policy F) → IsCounted s → IsCounted (record s { ctl = set_policy s.ctl p })
  unfolding set_policy
  configure-IsCounted s p = recount s _ refl refl refl refl

mutual
  unfolding run_call run_calls record_event

  run_call-IsCounted :
      {F : Float64} (c : Call F) (s : State F) → IsCounted s → IsCounted (run_call c s)
  run_call-IsCounted (acquires user n now t t' b a b' a') s k =
      acquire_request-IsCounted _ _ s user n now
        (record { before = run_calls-IsCounted b; after = run_calls-IsCounted a })
        (record { before = run_calls-IsCounted b'; after = run_calls-IsCounted a' }) k
  run_call-IsCounted (dones i) s k = model_done-IsCounted s i k
  run_call-IsCounted (finishes i) s k = finish-IsCounted s i k
  run_call-IsCounted (samples m now) s k = sample-IsCounted s m now k
  run_call-IsCounted (configures p) s k = configure-IsCounted s p k
  run_call-IsCounted (records user reason now b a) s k =
      event-IsCounted (gap (run_calls b) (run_calls a) now) s user reason _ (pos 0) now
        (record { before = run_calls-IsCounted b; after = run_calls-IsCounted a }) k
  run_call-IsCounted (reports i reason status now b a) s k =
      record_status-IsCounted (gap (run_calls b) (run_calls a) now) s i reason status now
        (record { before = run_calls-IsCounted b; after = run_calls-IsCounted a }) k

  run_calls-IsCounted :
      {F : Float64} (cs : Calls F) (s : State F) → IsCounted s → IsCounted (run_calls cs s)
  run_calls-IsCounted nil s k = k
  run_calls-IsCounted (cons c cs) s k =
      run_calls-IsCounted cs (run_call c s) (run_call-IsCounted c s k)

pub run_calls-init-IsCounted :
    {F : Float64} (p : Policy F) (cs : Calls F) → IsCounted (run_calls cs (init p))
run_calls-init-IsCounted p cs = run_calls-IsCounted cs (init p) (init-IsCounted p)
