-- ===== src/ResourceControl/Controller.antt =====
-- internal/resourcecontrol/controller.go: the controller's state and the event that every refusal
-- or observation records. The mutex makes each operation one step, but for `event`, which gives
-- it up while it sends: a `Gap` is what the other goroutines do meanwhile.
use cliproxy_portal.Common.Float.{Float64}
use cliproxy_portal.Common.{
  ℕ, ◌+◌, ◌%◌, ◌^◌, String, Bool, true, false, not, ◌&&◌, ◌||◌, none, List, [], ◌∷◌, ◌++◌, str_eq,
  if◌then◌else◌, ℤ, ltb_ℤ, pos,
}
use cliproxy_portal.ResourceControl.Policy.{Policy}
use cliproxy_portal.ResourceControl.Metrics.{Metrics, fresh}
use cliproxy_portal.ResourceControl.History.{HistoryBuffer, HistoryPoint}

pub record Event : Type 0 where
  pub at : ℕ
  pub user : String
  pub reason : String
  pub observed : Bool
  pub status_code : ℤ

-- `events` is the bounded channel and `pending` the writer's batch; `audit_wake` is the channel of
-- one slot that wakes the writer.
pub record Controller (F : Float64) : Type 0 where
  pub policy : Policy F
  pub metrics : Metrics F
  pub users : List (String × ℤ)
  pub active : ℤ
  pub processing : ℤ
  pub rejected : ℕ
  pub observed : ℕ
  pub events : List Event
  pub audit_wake : Bool
  pub high_since : ℕ
  pub recover_since : ℕ
  pub time_sample : ℕ
  pub paused : String
  pub history : HistoryBuffer F

-- One slot admission: the user that it counts for, the policy that admitted it, and its two
-- `sync.Once` flags. A lease is known by its place in the list of all leases.
pub record Lease (F : Float64) : Type 0 where
  pub user : String
  pub policy : Policy F
  pub model_done : Bool
  pub finished : Bool

pub record State (F : Float64) : Type 0 where
  pub ctl : Controller F
  pub leases : List (Lease F)

-- What others do between the unlock and the send, and between the send and the lock, and the time
-- at which the lock is held again.
pub record Gap (F : Float64) : Type 0 where
  pub before : State F → State F
  pub after : State F → State F
  pub resumed : ℕ

pub record Snapshot (F : Float64) : Type 0 where
  pub policy : Policy F
  pub metrics : Metrics F
  pub active : ℤ
  pub processing : ℤ
  pub rejected : ℕ
  pub observed : ℕ
  pub paused : String
  pub fresh : Bool

-- The counters are uint64.
abbrev pub u64 : ℕ
u64 = 2 ^ 64

unfoldable pub no_metrics : (F : Float64) → Metrics F
no_metrics F = record {
  at = 0;
  host_id = "";
  cpu_count = pos 0;
  cpu_percent = F.of_int (pos 0);
  total_mib = F.of_int (pos 0);
  available_mib = F.of_int (pos 0);
  suite_used_mib = none;
  host_used_mib = none;
  host_total_mib = F.of_int (pos 0);
  error = "";
}

unfoldable pub no_point : (F : Float64) → HistoryPoint F
no_point F = record {
  at = 0;
  cpu_percent = F.of_int (pos 0);
  used_mib = F.of_int (pos 0);
  total_mib = F.of_int (pos 0);
}

module _ {F : Float64} where
  unfoldable pub new_controller : Policy F → Controller F
  unfolding no_metrics no_point
  new_controller p = record {
    policy = p;
    metrics = no_metrics F;
    users = [];
    active = pos 0;
    processing = pos 0;
    rejected = 0;
    observed = 0;
    events = [];
    audit_wake = false;
    high_since = 0;
    recover_since = 0;
    time_sample = 0;
    paused = "";
    history = record { points = λ i. no_point F; next = 0; count = 0 };
  }

  unfoldable pub set_policy : Controller F → Policy F → Controller F
  set_policy c p = record c { policy = p; high_since = 0; recover_since = 0; paused = "" }

  abbrev pub enforced : Policy F → Bool
  enforced p = str_eq p.mode "enforce"

  count_event : Bool → Controller F → Controller F
  count_event true c = record c { observed = (c.observed + 1) % u64 }
  count_event false c = record c { rejected = (c.rejected + 1) % u64 }

  send_event : Event → Controller F → Controller F
  send_event e c = record c { events = c.events ++ e ∷ []; audit_wake = true }

  abbrev with_ctl : (Controller F → Controller F) → State F → State F
  with_ctl f s = record s { ctl = f s.ctl }

  unfoldable pub event_with_status :
      Gap F → State F → (user reason : String) (seen : Bool) (status : ℤ) (now : ℕ) → State F
  unfolding count_event send_event
  event_with_status g s user reason seen status now =
      let e : Event = record {
        at = now;
        user = user;
        reason = reason;
        observed = seen;
        status_code = status;
      } in
      g.after (with_ctl (send_event e) (g.before (with_ctl (count_event seen) s)))

  unfoldable pub record_event : Gap F → State F → (user reason : String) (now : ℕ) → State F × Bool
  unfolding event_with_status
  record_event g s user reason now =
      let observe = not (enforced s.ctl.policy) in
      (event_with_status g s user reason observe (pos 0) now, not observe)

  unfoldable pub snapshot : Controller F → ℕ → Snapshot F
  snapshot c now = record {
    policy = c.policy;
    metrics = c.metrics;
    active = c.active;
    processing = c.processing;
    rejected = c.rejected;
    observed = c.observed;
    paused =
        if not (fresh c.metrics now)
          && (F.lt (F.of_int (pos 0)) c.policy.cpu_percent || ltb_ℤ (pos 0) c.policy.memory_mib)
        then "monitor_unavailable"
        else c.paused;
    fresh = fresh c.metrics now;
  }
