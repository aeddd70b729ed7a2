-- ===== src/ResourceControl/Interleaving.antt =====
-- internal/resourcecontrol/controller.go: the goroutines that share one controller. A schedule is
-- a list of calls; a call that gives up the mutex holds the calls that run meanwhile.
pub mod Safety
pub mod Capacity
use cliproxy_portal.Common.Float.{Float64}
use cliproxy_portal.Common.{ℕ, String, [], ℤ}
use cliproxy_portal.ResourceControl.Policy.{Policy}
use cliproxy_portal.ResourceControl.Metrics.{Metrics}
use cliproxy_portal.ResourceControl.Controller.{
  State, Gap, record_event, set_policy, new_controller,
}
use cliproxy_portal.ResourceControl.Monitor.{update_metrics}
use cliproxy_portal.ResourceControl.Admission.{acquire_request, model_done, finish, record_status}

mutual
  pub data Call (F : Float64) : Type 0 where
    acquires :
        (user : String) (content_length : ℤ) (now resumed resumed' : ℕ)
        (before after before' after' : Calls F)
        → Call F
    dones : ℕ → Call F
    finishes : ℕ → Call F
    samples : Metrics F → ℕ → Call F
    configures : Policy F → Call F
    records : (user reason : String) (now : ℕ) (before after : Calls F) → Call F
    reports : (lease : ℕ) (reason : String) (status : ℤ) (now : ℕ) (before after : Calls F) → Call F

  pub data Calls (F : Float64) : Type 0 where
    nil : Calls F
    cons : Call F → Calls F → Calls F

abbrev pub gap : {F : Float64} → (State F → State F) → (State F → State F) → ℕ → Gap F
gap before after resumed = record { before = before; after = after; resumed = resumed }

unfoldable mutual
  pub run_call : {F : Float64} → Call F → State F → State F
  run_call (acquires user n now t t' b a b' a') s =
      (acquire_request (gap (run_calls b) (run_calls a) t) (gap (run_calls b') (run_calls a') t') s
        user n now).0
  run_call (dones i) s = model_done s i
  run_call (finishes i) s = finish s i
  run_call (samples m now) s = record s { ctl = update_metrics s.ctl m now }
  run_call (configures p) s = record s { ctl = set_policy s.ctl p }
  run_call (records user reason now b a) s =
      (record_event (gap (run_calls b) (run_calls a) now) s user reason now).0
  run_call (reports i reason status now b a) s =
      record_status (gap (run_calls b) (run_calls a) now) s i reason status now

  pub run_calls : {F : Float64} → Calls F → State F → State F
  run_calls nil s = s
  run_calls (cons c cs) s = run_calls cs (run_call c s)

unfoldable pub init : {F : Float64} → Policy F → State F
init p = record { ctl = new_controller p; leases = [] }
