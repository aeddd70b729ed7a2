-- ===== src/ResourceControl/Audit/Delivery.antt =====
-- internal/resourcecontrol/controller.go: no event is lost, repeated or reordered on its way.
use cliproxy_portal.Common.{
  ℕ, zero, suc, ◌+◌, ◌≤◌, ◌<◌, ◌≡◌, refl, sym, ap, ◌∙◌, Bool, true, false, List, [], ◌∷◌, ◌++◌,
  append_assoc, append-nil, arith, length, length-append,
}
use cliproxy_portal.ResourceControl.Controller.{Event}
use cliproxy_portal.ResourceControl.Audit.{
  Writer, receive, fill_empty, fill, flush_batch, flush_rounds, flush_events, Step, send, flush,
  run_steps, sent, empty_writer,
}

-- All events of the writer, in the order of their writing.
abbrev pub all_events : Writer → List Event
all_events w = w.written ++ (w.pending ++ w.events)

receive-append :
    (n : ℕ) (pending events : List Event)
    → (receive n pending events).0 ++ (receive n pending events).1 ≡ pending ++ events
unfolding receive
receive-append zero pending events = refl
receive-append (suc n) pending [] = refl
receive-append (suc n) pending (e ∷ events) =
    receive-append n (pending ++ e ∷ []) events ∙ append_assoc pending (e ∷ []) events

receive-length :
    (n : ℕ) (pending events : List Event) → length (receive n pending events).0 ≤ length pending + n
unfolding receive
receive-length zero pending events = omega arith
receive-length (suc n) pending [] = omega arith
receive-length (suc n) pending (e ∷ events) =
    omega (arith, receive-length n (pending ++ e ∷ []) events, length-append pending (e ∷ []))

fill-all_events :
    (p : List Event) (w : Writer) → w.pending ≡ p → all_events (fill_empty p w) ≡ all_events w
unfolding fill_empty
fill-all_events [] w e =
    ap (λ (l : List Event). w.written ++ l) (receive-append 64 [] w.events)
    ∙ sym (ap (λ (l : List Event). w.written ++ (l ++ w.events)) e)
fill-all_events (x ∷ p) w e = refl

batch-all_events :
    (p : List Event) (reply : Bool) (w : Writer) (next : Writer → Writer)
    → w.pending ≡ p
    → ((v : Writer) → all_events (next v) ≡ all_events v)
    → all_events (flush_batch p reply w next) ≡ all_events w
unfolding flush_batch
batch-all_events [] reply w next e h = refl
batch-all_events (x ∷ p) true w next e h =
    h _
    ∙ append_assoc w.written (x ∷ p) w.events
    ∙ sym (ap (λ (l : List Event). w.written ++ (l ++ w.events)) e)
batch-all_events (x ∷ p) false w next e h = refl

flush_rounds-all_events :
    (replies : List Bool) (w : Writer) → all_events (flush_rounds replies w) ≡ all_events w
unfolding flush_rounds
flush_rounds-all_events [] w = refl
flush_rounds-all_events (reply ∷ replies) w =
    batch-all_events (fill w).pending reply (fill w) (flush_rounds replies) refl
      (flush_rounds-all_events replies)
    ∙ fill-all_events w.pending w refl

flush_events-all_events :
    (has_sink : Bool) (replies : List Bool) (w : Writer)
    → all_events (flush_events has_sink replies w) ≡ all_events w
unfolding flush_events
flush_events-all_events true replies w = flush_rounds-all_events replies w
flush_events-all_events false replies w = refl

run_steps-all_events :
    (steps : List Step) (w : Writer) → all_events (run_steps steps w) ≡ all_events w ++ sent steps
unfolding run_steps
run_steps-all_events [] w = sym (append-nil _)
run_steps-all_events (send e ∷ steps) w =
    run_steps-all_events steps (record w { events = w.events ++ e ∷ [] }) ∙ simp append_assoc
run_steps-all_events (flush s replies ∷ steps) w =
    run_steps-all_events steps (flush_events s replies w)
    ∙ ap (λ (l : List Event). l ++ sent steps) (flush_events-all_events s replies w)

-- Whatever sends and flushes happen, and however the sink answers, what has been written, followed
-- by the pending batch and the queue, is exactly the sequence of events that were sent.
pub run_steps-sent : (steps : List Step) → all_events (run_steps steps empty_writer) ≡ sent steps
run_steps-sent steps = run_steps-all_events steps empty_writer

-- A batch is never longer than 64 events.
fill-length :
    (p : List Event) (w : Writer)
    → w.pending ≡ p
    → length p ≤ 64
    → length (fill_empty p w).pending ≤ 64
unfolding fill_empty
fill-length [] w e h = receive-length 64 [] w.events
fill-length (x ∷ p) w e h = rw e h

batch-length :
    (p : List Event) (reply : Bool) (w : Writer) (next : Writer → Writer)
    → length w.pending ≤ 64
    → ((v : Writer) → length v.pending ≤ 64 → length (next v).pending ≤ 64)
    → length (flush_batch p reply w next).pending ≤ 64
unfolding flush_batch
batch-length [] reply w next h k = h
batch-length (x ∷ p) true w next h k = k _ (omega arith)
batch-length (x ∷ p) false w next h k = h

flush_rounds-length :
    (replies : List Bool) (w : Writer)
    → length w.pending ≤ 64
    → length (flush_rounds replies w).pending ≤ 64
unfolding flush_rounds
flush_rounds-length [] w h = h
flush_rounds-length (reply ∷ replies) w h =
    batch-length (fill w).pending reply (fill w) (flush_rounds replies)
      (fill-length w.pending w refl h) (flush_rounds-length replies)

run_steps-length_from :
    (steps : List Step) (w : Writer)
    → length w.pending ≤ 64
    → length (run_steps steps w).pending ≤ 64
unfolding run_steps flush_events
run_steps-length_from [] w h = h
run_steps-length_from (send e ∷ steps) w h = run_steps-length_from steps _ h
run_steps-length_from (flush true replies ∷ steps) w h =
    run_steps-length_from steps (flush_rounds replies w) (flush_rounds-length replies w h)
run_steps-length_from (flush false replies ∷ steps) w h = run_steps-length_from steps w h

-- However sends and flushes follow one another, the pending batch never holds more than 64 events.
pub run_steps-length : (steps : List Step) → length (run_steps steps empty_writer).pending ≤ 64
run_steps-length steps = run_steps-length_from steps empty_writer (omega arith)

-- Enough successful answers.
abbrev pub answers : ℕ → List Bool
answers zero = []
answers (suc n) = true ∷ answers n

abbrev IsDrained : Writer → Type 0
IsDrained w = (w.pending ≡ []) × (w.events ≡ [])

abbrev backlog : Writer → ℕ
backlog w = length w.events + length w.pending

receive-backlog :
    (n : ℕ) (pending events : List Event)
    → length (receive n pending events).1 + length (receive n pending events).0
      ≡ length events + length pending
unfolding receive
receive-backlog zero pending events = refl
receive-backlog (suc n) pending [] = refl
receive-backlog (suc n) pending (e ∷ events) =
    omega (arith, receive-backlog n (pending ++ e ∷ []) events, length-append pending (e ∷ []))

fill-backlog : (p : List Event) (w : Writer) → w.pending ≡ p → backlog (fill_empty p w) ≡ backlog w
unfolding fill_empty
fill-backlog [] w e = rw e (receive-backlog 64 [] w.events)
fill-backlog (x ∷ p) w e = refl

-- A batch that stays empty means that the queue was empty.
receive-empty :
    (n : ℕ) (pending events : List Event)
    → (receive (suc n) pending events).0 ≡ []
    → (receive (suc n) pending events).1 ≡ []
unfolding receive
receive-empty n pending [] e = refl
receive-empty zero [] (x ∷ events) e = cc
receive-empty zero (y ∷ pending) (x ∷ events) e = cc
receive-empty (suc n) pending (x ∷ events) e = receive-empty n (pending ++ x ∷ []) events e

fill-empty :
    (p : List Event) (w : Writer)
    → w.pending ≡ p
    → (fill_empty p w).pending ≡ []
    → IsDrained (fill_empty p w)
unfolding fill_empty
fill-empty [] w e h = (h, receive-empty 63 [] w.events h)
fill-empty (x ∷ p) w e h = cc

batch-drains :
    (p : List Event) (w : Writer) (next : Writer → Writer)
    → w.pending ≡ p
    → (w.pending ≡ [] → IsDrained w)
    → ((v : Writer) → backlog v < backlog w → IsDrained (next v))
    → IsDrained (flush_batch p true w next)
unfolding flush_batch
batch-drains [] w next e h k = h e
batch-drains (x ∷ p) w next e h k = k _ (omega (arith, ap length e))

-- A flush whose sink answers well more often than there are events queued or pending writes all.
flush_rounds-drains : (n : ℕ) (w : Writer) → backlog w < n → IsDrained (flush_rounds (answers n) w)
unfolding flush_rounds
flush_rounds-drains zero w h = elim h [ ]
flush_rounds-drains (suc n) w h =
    batch-drains (fill w).pending (fill w) (flush_rounds (answers n)) refl
      (fill-empty w.pending w refl)
      (λ v lt. flush_rounds-drains n v (omega (arith, fill-backlog w.pending w refl)))

-- When a sink is set and answers well more often than there are events queued or pending, the
-- flush ends with an empty queue and no pending batch, and the events that were queued or
-- pending stand written behind those written before, in their order.
pub flush_events-drains :
    (n : ℕ) (w : Writer)
    → length w.events + length w.pending < n
    → IsDrained (flush_events true (answers n) w)
      × ((flush_events true (answers n) w).written ≡ w.written ++ (w.pending ++ w.events))
unfolding flush_events
flush_events-drains n w h =
    let (no_batch, no_queue) = flush_rounds-drains n w h in
    (
      (no_batch, no_queue),
      sym (append-nil _)
          ∙ ap (λ (l : List Event). (flush_rounds (answers n) w).written ++ l)
              (nothing no_batch no_queue)
          ∙ flush_rounds-all_events (answers n) w,
    )
  where
    nothing : {p q : List Event} → p ≡ [] → q ≡ [] → [] ≡ p ++ q
    nothing e f = rw (e, f)
