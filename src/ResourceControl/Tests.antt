-- ===== src/ResourceControl/Tests.antt =====
-- internal/resourcecontrol: runs of the monitor, the admission and the audit writer on small
-- inputs, with the percentages and sizes as hundredths.
use cliproxy_portal.Common.Float.{hundredths}
use cliproxy_portal.Common.{
  ℕ, ◌+◌, ◌*◌, ◌≤◌, String, ◌≡◌, refl, ◌↔◌, true, false, none, List, [], ◌∷◌, ◌++◌, arith, length,
  All, pos, lookup, delete, insert,
}
use cliproxy_portal.ResourceControl.Policy.{Policy, default_policy}
use cliproxy_portal.ResourceControl.Metrics.{Metrics, fresh, used_mib, second}
use cliproxy_portal.ResourceControl.History.{
  HistoryPoint, HistoryBuffer, add, history, restore_history,
}
use cliproxy_portal.ResourceControl.History.Segments.{contents, segment}
use cliproxy_portal.ResourceControl.History.Ring.{contents-add, insert_last, trim}
use cliproxy_portal.ResourceControl.History.Order.{
  IsAscending, IsOrdered, IsShowable, add-IsOrdered, restore_history-IsOrdered, history-IsAscending,
}
use cliproxy_portal.ResourceControl.Controller.{Event, Gap, new_controller, event_with_status}
use cliproxy_portal.ResourceControl.Monitor.{update_metrics, judge, is_high, is_memory, is_calm}
use cliproxy_portal.ResourceControl.Monitor.Spans.{run_samples, Samples, HighSince, CalmSince}
use cliproxy_portal.ResourceControl.Monitor.Pause.{
  pause-HighSince, resume-CalmSince, pause_without_high, empty-ne-cpu, cpu-ne-empty,
}
use cliproxy_portal.ResourceControl.Admission.{
  acquire_request, model_done, finish, model_done_lease, finish_lease, granted, too_large, admit,
  grant, admission_reason,
}
use cliproxy_portal.ResourceControl.Admission.Decision.{Admits, granted_iff, observed_granted}
use cliproxy_portal.ResourceControl.Admission.Once.{finish_twice}
use cliproxy_portal.ResourceControl.Interleaving.{
  Call, Calls, nil, cons, acquires, dones, finishes, gap, init, run_call, run_calls,
}
use cliproxy_portal.ResourceControl.Interleaving.Safety.{run_calls-init-IsCounted}
use cliproxy_portal.ResourceControl.Interleaving.Capacity.{
  IsCapped, KeepsPolicy, KeepsPolicyCall, run_calls-init-IsCapped,
}
use cliproxy_portal.ResourceControl.Audit.{
  Writer, Step, send, flush, run_steps, sent, empty_writer, flush_events,
}
use cliproxy_portal.ResourceControl.Audit.Delivery.{
  all_events, run_steps-sent, run_steps-length, answers, flush_events-drains,
}

abbrev policy : Policy hundredths
policy = record (default_policy hundredths) { mode = "enforce" }

-- The bodies that a run goes through.
monitor : Unit {0}
unfolding default_policy new_controller run_samples update_metrics judge fresh used_mib is_high
    is_memory is_calm
monitor = tt

-- A sample at so many seconds, with so many percent of CPU.
abbrev sample : ℕ → ℕ → Metrics hundredths × ℕ
sample at percent = (
  record {
    at = at * second;
    host_id = "host";
    cpu_count = pos 4;
    cpu_percent = percent * 100;
    total_mib = 100000;
    available_mib = 50000;
    suite_used_mib = none;
    host_used_mib = none;
    host_total_mib = 0;
    error = "";
  },
  at * second,
)

abbrev busy : Samples hundredths
busy = sample 108 95 ∷ sample 100 95 ∷ []

abbrev calm : Samples hundredths
calm = sample 132 10 ∷ sample 124 10 ∷ sample 116 95 ∷ busy

pause_test : (run_samples (new_controller policy) (sample 116 95 ∷ busy)).paused ≡ "cpu_pressure"
unfolding monitor
pause_test = refl

resume_test : (run_samples (new_controller policy) (sample 134 10 ∷ calm)).paused ≡ ""
unfolding monitor
resume_test = refl

pause-HighSince_example :
    (s : ℕ) × (t : ℕ) × HighSince policy s t (sample 116 95 ∷ busy)
    × (s + 15 * second ≤ 116 * second)
unfolding monitor
pause-HighSince_example =
    pause-HighSince (new_controller policy) refl refl busy (sample 116 95).0 (116 * second)
      empty-ne-cpu refl

resume-CalmSince_example :
    (s : ℕ) × (t : ℕ) × CalmSince policy s t (sample 134 10 ∷ calm)
    × (s + 10 * second ≤ 134 * second)
unfolding monitor
resume-CalmSince_example =
    resume-CalmSince (new_controller policy) refl refl calm (sample 134 10).0 (134 * second)
      cpu-ne-empty refl

-- Admission is paused at 116 seconds although the CPU was low at 108.
abbrev full_memory : Metrics hundredths
full_memory = record (sample 108 10).0 { available_mib = 1000 }

pause_without_high_example :
    (update_metrics
      (update_metrics
        (run_samples (new_controller policy) (sample 100 95 ∷ []))
        full_memory
        (108 * second))
      (sample 116 95).0
      (116 * second)).paused
    ≡ "cpu_pressure"
unfolding monitor
pause_without_high_example =
    pause_without_high (run_samples (new_controller policy) (sample 100 95 ∷ [])) full_memory
      (sample 116 95).0 (108 * second) (116 * second) (omega arith) (omega arith) (omega arith) refl
      refl refl (omega arith) (omega arith) refl refl refl (omega arith)

-- Two users, one of whom asks twice while the first answer is sent to the log.
abbrev asks : String → Calls hundredths → Call hundredths
asks user meanwhile = acquires user (pos 10) 0 0 0 meanwhile nil meanwhile nil

abbrev open_policy : Policy hundredths
open_policy = record policy { cpu_percent = 0; memory_mib = pos 0 }

abbrev schedule : Calls hundredths
schedule = cons (asks "ann" nil) (
    cons (asks "ann" (cons (asks "bob" nil) (cons (dones 0) nil)))
      (cons (finishes 0) (cons (dones 1) nil)))

admission : Unit {0}
unfolding run_call run_calls init acquire_request model_done model_done_lease finish admit
    admission_reason lookup grant insert delete event_with_status finish_lease
admission = tt

schedule_test : (run_calls schedule (init open_policy)).ctl.active ≡ pos 0
unfolding monitor admission
schedule_test = refl

schedule-KeepsPolicy : KeepsPolicy schedule
unfolding KeepsPolicy KeepsPolicyCall
schedule-KeepsPolicy = (none_waiting, ((one, tt, one, tt), (tt, (tt, tt))))
  where
    none_waiting : Unit {0} × Unit {0} × Unit {0} × Unit {0}
    none_waiting = (tt, tt, tt, tt)

    one : (Unit {0} × Unit {0} × Unit {0} × Unit {0}) × (Unit {0} × Unit {0})
    one = (none_waiting, (tt, tt))

run_calls-init-IsCapped_example : IsCapped open_policy (run_calls schedule (init open_policy))
unfolding monitor
run_calls-init-IsCapped_example =
    run_calls-init-IsCapped open_policy schedule refl (omega arith) (omega arith)
      schedule-KeepsPolicy

finish_twice_example :
    let s = run_calls (cons (asks "ann" nil) nil) (init open_policy) in
    (finish (finish s 0) 0 ≡ finish s 0) × (model_done (finish s 0) 0 ≡ finish s 0)
finish_twice_example =
    finish_twice (run_calls (cons (asks "ann" nil) nil) (init open_policy)) 0
      (run_calls-init-IsCounted open_policy (cons (asks "ann" nil) nil))

abbrev no_gap : Gap hundredths
no_gap = gap (run_calls nil) (run_calls nil) 0

granted_iff_example :
    ((acquire_request no_gap no_gap (init open_policy) "ann" (pos 10) 0).1 ≡ granted 0)
    ↔ (too_large open_policy (pos 10) ≡ false)
      × Admits open_policy (init open_policy).ctl "ann" 0
      × (0 ≡ length (init open_policy).leases)
unfolding monitor admission
granted_iff_example = granted_iff no_gap no_gap (init open_policy) "ann" (pos 10) 0 0 refl

observed_granted_example :
    (i : ℕ) × ((acquire_request no_gap no_gap
        (init (default_policy hundredths))
        "ann"
        (pos 99999999)
        0).1
      ≡ granted i)
unfolding monitor admission
observed_granted_example =
    observed_granted no_gap no_gap (init (default_policy hundredths)) "ann" (pos 99999999) 0 refl

abbrev at_point : ℕ → HistoryPoint hundredths
at_point at = record { at = at * second; cpu_percent = 500; used_mib = 10; total_mib = 100 }

abbrev no_history : HistoryBuffer hundredths
no_history = (new_controller policy).history

no_history-IsOrdered : IsOrdered no_history
unfolding monitor contents segment
no_history-IsOrdered = record {
  ring = record { next_low = omega arith; count_low = omega arith };
  ascending = tt;
}

contents-add_example :
    contents (add no_history (at_point 10)) ≡ trim (insert_last (contents no_history) (at_point 10))
contents-add_example = contents-add no_history (at_point 10) no_history-IsOrdered.ring

restore_history-IsOrdered_example :
    IsOrdered
      (restore_history no_history (at_point 10 ∷ at_point 20 ∷ at_point 15 ∷ []) (30 * second))
restore_history-IsOrdered_example =
    restore_history-IsOrdered no_history (at_point 10 ∷ at_point 20 ∷ at_point 15 ∷ [])
      (30 * second) no_history-IsOrdered

abbrev two_points : HistoryBuffer hundredths
two_points = add (add no_history (at_point 10)) (at_point 20)

history-IsAscending_example :
    IsAscending (history two_points (30 * second))
    × All (IsShowable (30 * second)) (history two_points (30 * second))
history-IsAscending_example = history-IsAscending two_points (30 * second) (
    add-IsOrdered (add no_history (at_point 10)) (at_point 20)
      (add-IsOrdered no_history (at_point 10) no_history-IsOrdered))

abbrev refusal : Event
refusal = record {
  at = 5;
  user = "ann";
  reason = "user_concurrency";
  observed = false;
  status_code = pos 0;
}

abbrev steps : List Step
steps = send refusal ∷ flush true (false ∷ []) ∷ send refusal ∷ flush true (true ∷ true ∷ []) ∷ []

run_steps-sent_example : all_events (run_steps steps empty_writer) ≡ sent steps
run_steps-sent_example = run_steps-sent steps

run_steps-length_example : length (run_steps steps empty_writer).pending ≤ 64
run_steps-length_example = run_steps-length steps

abbrev queued : Writer
queued = record empty_writer { events = refusal ∷ refusal ∷ [] }

flush_events-drains_example :
    ((flush_events true (answers 3) queued).pending ≡ [])
    × ((flush_events true (answers 3) queued).events ≡ [])
    × ((flush_events true (answers 3) queued).written ≡ [] ++ ([] ++ refusal ∷ refusal ∷ []))
flush_events-drains_example =
    let (drained, kept) = flush_events-drains 3 queued (omega arith) in (drained.0, drained.1, kept)
