-- ===== src/Gateway/Timing/Order.antt =====
-- internal/gateway/server_timing.go: in which order the times of a request lie.
use cliproxy_portal.Common.{ℕ, ◌≤◌, ◌<◌, ◌≡◌, refl, ◌⊎◌, inl, Bool, false, List, arith}
use cliproxy_portal.Gateway.Timing.{
  TimingConn, state_idle, accept, read, write, activate, leave, register,
}

pub data Phase : Type 0 where
  fresh active resting : Phase

-- The connections that net/http brings about: `last` is when the connection was accepted or the
-- request before ended, `now` the time of the last event. A connection becomes active when it is
-- fresh or rests, and rests when it is active.
pub data Reach : (last now : ℕ) → Phase → TimingConn → Type 0 where
  accepts : {now : ℕ} → 0 < now → Reach now now fresh (accept now)
  reads :
      {last before : ℕ} {phase : Phase} {c : TimingConn} (n now : ℕ)
      → Reach last before phase c
      → before ≤ now
      → Reach last now phase (read n now c)
  writes :
      {last before : ℕ} {phase : Phase} {c : TimingConn} (p : List ℕ) (n : ℕ) (failed : Bool)
      (now : ℕ)
      → Reach last before phase c
      → before ≤ now
      → Reach last now phase (write p n failed now c)
  begins :
      {last before : ℕ} {c : TimingConn} (now : ℕ)
      → Reach last before fresh c
      → before ≤ now
      → Reach last now active (activate now c)
  resumes :
      {last before : ℕ} {c : TimingConn} (now : ℕ)
      → Reach last before resting c
      → before ≤ now
      → Reach last now active (activate now c)
  registers :
      {last now : ℕ} {c : TimingConn} (request : ℕ)
      → Reach last now active c
      → Reach last now active (register request c)
  rests :
      {last before : ℕ} {c : TimingConn} (now : ℕ)
      → Reach last before active c
      → before ≤ now
      → Reach now now resting (leave state_idle now c)

-- What holds of the times in each phase.
abbrev IsPhased : (last now : ℕ) → Phase → TimingConn → Type 0
IsPhased last now fresh c = (c.accepted_at ≡ last) × (c.idle ≡ false)
IsPhased last now active c =
    (c.accepted_at ≡ 0)
    × (c.idle ≡ false)
    × (last ≤ c.start)
    × (c.start ≤ now)
    × ((c.first_write_at ≡ 0) ⊎ (c.start ≤ c.first_write_at) × (c.first_write_at ≤ now))
IsPhased last now resting c =
    (c.accepted_at ≡ 0) × ((c.read_at ≡ 0) ⊎ (last ≤ c.read_at) × (c.read_at ≤ now))

read-IsPhased :
    (last before now n : ℕ) (phase : Phase) (c : TimingConn)
    → last ≤ before
    → before ≤ now
    → IsPhased last before phase c
    → IsPhased last now phase (read n now c)
unfolding read
read-IsPhased last before now n fresh c l le h = ground arith
read-IsPhased last before now n active c l le h = ground arith
read-IsPhased last before now n resting c l le h = ground arith

write-IsPhased :
    (last before now n : ℕ) (p : List ℕ) (failed : Bool) (phase : Phase) (c : TimingConn)
    → last ≤ before
    → before ≤ now
    → IsPhased last before phase c
    → IsPhased last now phase (write p n failed now c)
unfolding write
write-IsPhased last before now n p failed fresh c l le h = ground arith
write-IsPhased last before now n p failed active c l le h = ground arith
write-IsPhased last before now n p failed resting c l le h = ground arith

begin-IsPhased :
    (last before now : ℕ) (c : TimingConn)
    → 0 < last
    → last ≤ before
    → before ≤ now
    → IsPhased last before fresh c
    → IsPhased last now active (activate now c)
unfolding activate
begin-IsPhased last before now c p l le h = ground arith

resume-IsPhased :
    (last before now : ℕ) (c : TimingConn)
    → last ≤ before
    → before ≤ now
    → IsPhased last before resting c
    → IsPhased last now active (activate now c)
unfolding activate
resume-IsPhased last before now c l le h = ground arith

Reach-IsPhased :
    {last now : ℕ} {phase : Phase} {c : TimingConn}
    → Reach last now phase c
    → (0 < last) × (last ≤ now) × IsPhased last now phase c
unfolding accept leave register
Reach-IsPhased (accepts p) = (p, omega arith, (refl, refl))
Reach-IsPhased (reads {last = last} {before = t} {phase = phase} {c = old} n now r le) =
    let (p, l, h) = Reach-IsPhased r in
    (p, omega arith, read-IsPhased last t now n phase old l le h)
Reach-IsPhased (writes {last = last} {before = t} {phase = phase} {c = old} q n failed now r le) =
    let (p, l, h) = Reach-IsPhased r in
    (p, omega arith, write-IsPhased last t now n q failed phase old l le h)
Reach-IsPhased (begins {last = last} {before = t} {c = old} now r le) =
    let (p, l, h) = Reach-IsPhased r in (p, omega arith, begin-IsPhased last t now old p l le h)
Reach-IsPhased (resumes {last = last} {before = t} {c = old} now r le) =
    let (p, l, h) = Reach-IsPhased r in (p, omega arith, resume-IsPhased last t now old l le h)
Reach-IsPhased (registers request r) = Reach-IsPhased r
Reach-IsPhased (rests now r le) =
    let (p, l, h) = Reach-IsPhased r in (omega arith, omega arith, (h.0, inl refl))

-- In every connection that net/http brings about, the start of the request at hand lies neither
-- before the connection was accepted nor before the request before it ended, nor in the future;
-- and the first write of its response, if there was one, lies between its start and now. So no
-- request is given the time of another or the idle time before that.
pub Reach-start :
    (last now : ℕ) (c : TimingConn)
    → Reach last now active c
    → (last ≤ c.start)
      × (c.start ≤ now)
      × ((c.first_write_at ≡ 0) ⊎ (c.start ≤ c.first_write_at) × (c.first_write_at ≤ now))
Reach-start last now c r =
    let (p, l, times) = Reach-IsPhased r in
    let (none_accepted, working, begun, past, wrote) = times in (begun, past, wrote)
