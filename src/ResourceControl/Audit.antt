-- ===== src/ResourceControl/Audit.antt =====
-- internal/resourcecontrol/controller.go: `FlushEvents`, which writes the queued events in batches.
-- The sink writes a batch whole or not at all, and its answers are an argument: one for each call,
-- and the end of the list for a context that is done.
pub mod Delivery
use cliproxy_portal.Common.{ℕ, zero, suc, Bool, true, false, List, [], ◌∷◌, ◌++◌, if◌then◌else◌}
use cliproxy_portal.ResourceControl.Controller.{Event}

-- The channel, the writer's pending batch, and what the sink has written.
pub record Writer : Type 0 where
  pub events : List Event
  pub pending : List Event
  pub written : List Event

-- The inner loop: receive until the batch holds 64 events or the channel is empty.
unfoldable pub receive : ℕ → List Event → List Event → List Event × List Event
receive zero pending events = (pending, events)
receive (suc n) pending [] = (pending, [])
receive (suc n) pending (e ∷ events) = receive n (pending ++ e ∷ []) events

fill_empty : List Event → Writer → Writer
unfolding receive
fill_empty [] w =
    let (pending, events) = receive 64 [] w.events in
    record w { pending = pending; events = events }
fill_empty (e ∷ es) w = w

abbrev fill : Writer → Writer
fill w = fill_empty w.pending w

-- One round with the batch at hand, and the rounds after it.
flush_batch : List Event → Bool → Writer → (Writer → Writer) → Writer
flush_batch [] reply w next = w
flush_batch (e ∷ es) true w next = next (record w { written = w.written ++ e ∷ es; pending = [] })
flush_batch (e ∷ es) false w next = w

unfoldable pub flush_rounds : List Bool → Writer → Writer
unfolding fill_empty flush_batch
flush_rounds [] w = w
flush_rounds (reply ∷ replies) w =
    flush_batch (fill w).pending reply (fill w) (flush_rounds replies)

-- With no sink set nothing is done.
unfoldable pub flush_events : Bool → List Bool → Writer → Writer
unfolding flush_rounds
flush_events has_sink replies w = if has_sink then flush_rounds replies w else w

-- What reaches the writer over time: a controller's send, or a flush.
pub data Step : Type 0 where
  send : Event → Step
  flush : (has_sink : Bool) (replies : List Bool) → Step

unfoldable pub run_steps : List Step → Writer → Writer
run_steps [] w = w
run_steps (send e ∷ steps) w = run_steps steps (record w { events = w.events ++ e ∷ [] })
run_steps (flush has_sink replies ∷ steps) w = run_steps steps (flush_events has_sink replies w)

abbrev pub sent : List Step → List Event
sent [] = []
sent (send e ∷ steps) = e ∷ sent steps
sent (flush has_sink replies ∷ steps) = sent steps

abbrev pub empty_writer : Writer
empty_writer = record { events = []; pending = []; written = [] }
