-- ===== src/Gateway/Websocket/Messages.antt =====
-- internal/gateway/resource_websocket.go: which sequences of frames pass the filter.
use cliproxy_portal.Common.{
  ℕ, ◌+◌, ◌^◌, ◌≤◌, ◌<◌, ◌≡◌, refl, ap, ◌∙◌, ◌↔◌, ◌⊎◌, inl, inr, Bool, true, false, not, Option,
  none, some, List, [], ◌∷◌, arith, ◌==◌, if◌then◌else◌, Bool-cases,
}
use cliproxy_portal.Gateway.Websocket.{
  Socket, Frame, judge_frame, end_frame, is_control, open_socket,
}

-- A run of the filter over whole frames: each is judged when its header is complete, and ends when
-- its payload has passed. `none` is a rejection.
unfoldable pub pass_frames : List Frame → Socket → Option Socket
pass_frames [] s = some s
pass_frames (f ∷ fs) s =
    if (judge_frame f s).1 then none else pass_frames fs (end_frame (judge_frame f s).0)

-- The bytes of the message so far with this frame.
abbrev with_frame : Frame → ℕ → ℕ
with_frame f message = if f.opcode == 0 then message + f.size else f.size

-- Frames that a client may send under a limit, where `message` bytes of a message have come and
-- `message_open` says whether one has begun: every frame is masked and has no reserved bit; a
-- control frame is final, known and of 125 bytes at most; a data frame continues an open message
-- or begins one where none is open, and no message exceeds the limit.
pub data Conforms (limit : ℕ) : ℕ → Bool → List Frame → Type 0 where
  done : {message : ℕ} {message_open : Bool} → Conforms limit message message_open []
  control :
      {message : ℕ} {message_open : Bool} {fs : List Frame} (f : Frame)
      → f.masked ≡ true
      → f.reserved ≡ 0
      → f.final ≡ true
      → (8 ≤ f.opcode) × (f.opcode ≤ 10)
      → f.size ≤ 125
      → Conforms limit message message_open fs
      → Conforms limit message message_open (f ∷ fs)
  part :
      {message : ℕ} {message_open : Bool} {fs : List Frame} (f : Frame)
      → f.masked ≡ true
      → f.reserved ≡ 0
      → f.opcode ≤ 2
      → (f.opcode ≡ 0) × (message_open ≡ true) ⊎ (0 < f.opcode) × (message_open ≡ false)
      → with_frame f message ≤ limit
      → f.size < 2 ^ 63
      → Conforms limit (if f.final then 0 else with_frame f message) (not f.final) fs
      → Conforms limit message message_open (f ∷ fs)

pub record InRange (s : Socket) : Type 0 where
  pub message_low : s.message ≤ s.limit
  pub limit_low : s.limit < 2 ^ 64

step-InRange : (f : Frame) (s : Socket) → InRange s → InRange (end_frame (judge_frame f s).0)
unfolding judge_frame end_frame
step-InRange f s r = ground arith

judge_control :
    (f : Frame) (s : Socket)
    → is_control f ≡ true
    → (judge_frame f s).1 ≡ false
    → (f.masked ≡ true)
      × (f.reserved ≡ 0)
      × (f.final ≡ true)
      × (8 ≤ f.opcode)
      × (f.opcode ≤ 10)
      × (f.size ≤ 125)
      × ((end_frame (judge_frame f s).0).message ≡ s.message)
      × ((end_frame (judge_frame f s).0).message_open ≡ s.message_open)
      × ((end_frame (judge_frame f s).0).limit ≡ s.limit)
unfolding judge_frame end_frame
judge_control f s c h = ground arith

judge_data :
    (f : Frame) (s : Socket)
    → InRange s
    → is_control f ≡ false
    → (judge_frame f s).1 ≡ false
    → (f.masked ≡ true)
      × (f.reserved ≡ 0)
      × (f.opcode ≤ 2)
      × ((f.opcode ≡ 0) × (s.message_open ≡ true) ⊎ (0 < f.opcode) × (s.message_open ≡ false))
      × (with_frame f s.message ≤ s.limit)
      × (f.size < 2 ^ 63)
      × ((end_frame (judge_frame f s).0).message ≡ (if f.final then 0 else with_frame f s.message))
      × ((end_frame (judge_frame f s).0).message_open ≡ not f.final)
      × ((end_frame (judge_frame f s).0).limit ≡ s.limit)
unfolding judge_frame end_frame
judge_data f s r c h = ground arith

pass-Conforms :
    (fs : List Frame) (s t : Socket)
    → InRange s
    → pass_frames fs s ≡ some t
    → Conforms s.limit s.message s.message_open fs
unfolding pass_frames
pass-Conforms [] s t r e = done
pass-Conforms (f ∷ fs) s t r e = elim (Bool-cases (judge_frame f s).1) [
  | inl bad ↦ absurd (ground arith)
  | inr good ↦
      let next = end_frame (judge_frame f s).0 in
      let rest = pass-Conforms fs next t (step-InRange f s r) (rw good at e) in
      elim (Bool-cases (is_control f)) [
        | inl c ↦
            let (m, z, fin, low, high, small, same_message, same_open, same_limit) =
              judge_control f s c good in
            control f m z fin (low, high) small (rw (same_message, same_open, same_limit) at rest)
        | inr d ↦
            let (m, z, low, order, fits, short, message, opened, same_limit) =
              judge_data f s r d good in
            part f m z low order fits short (rw (message, opened, same_limit) at rest)
      ]
]

control-passes :
    (f : Frame) (s : Socket)
    → f.masked ≡ true
    → f.reserved ≡ 0
    → f.final ≡ true
    → (8 ≤ f.opcode) × (f.opcode ≤ 10)
    → f.size ≤ 125
    → ((judge_frame f s).1 ≡ false)
      × ((end_frame (judge_frame f s).0).message ≡ s.message)
      × ((end_frame (judge_frame f s).0).message_open ≡ s.message_open)
      × ((end_frame (judge_frame f s).0).limit ≡ s.limit)
unfolding judge_frame end_frame
control-passes f s m z fin known small = ground arith

part-passes :
    (f : Frame) (s : Socket)
    → InRange s
    → f.masked ≡ true
    → f.reserved ≡ 0
    → f.opcode ≤ 2
    → (f.opcode ≡ 0) × (s.message_open ≡ true) ⊎ (0 < f.opcode) × (s.message_open ≡ false)
    → with_frame f s.message ≤ s.limit
    → f.size < 2 ^ 63
    → ((judge_frame f s).1 ≡ false)
      × ((end_frame (judge_frame f s).0).message ≡ (if f.final then 0 else with_frame f s.message))
      × ((end_frame (judge_frame f s).0).message_open ≡ not f.final)
      × ((end_frame (judge_frame f s).0).limit ≡ s.limit)
unfolding judge_frame end_frame
part-passes f s r m z low order fits short = ground arith

Conforms-pass :
    {limit message : ℕ} {message_open : Bool} {fs : List Frame}
    → Conforms limit message message_open fs
    → (s : Socket) → InRange s
    → s.limit ≡ limit
    → s.message ≡ message
    → s.message_open ≡ message_open
    → (t : Socket) × (pass_frames fs s ≡ some t)
unfolding pass_frames
Conforms-pass done s r l m o = (s, refl)
Conforms-pass (control f masked plain fin known small k) s r l m o =
    let (good, same_message, same_open, same_limit) =
      control-passes f s masked plain fin known small in
    rw good (
      Conforms-pass k (end_frame (judge_frame f s).0) (step-InRange f s r) (same_limit ∙ l)
        (same_message ∙ m) (same_open ∙ o))
Conforms-pass (part {message = message} f masked plain low order fits short k) s r l m o =
    let (good, message_eq, open_eq, same_limit) =
      part-passes f s r masked plain low (rw o order) (rw (l, m) fits) short in
    rw good (
      Conforms-pass k (end_frame (judge_frame f s).0) (step-InRange f s r) (same_limit ∙ l)
        (message_eq ∙ ap (λ (n : ℕ). if f.final then 0 else with_frame f n) m) open_eq)

-- On a new connection whose limit is below 2 ^ 64 the filter lets a sequence of frames pass exactly
-- when it conforms: every frame is masked and plain, control frames are final, known and small,
-- data frames form messages one after the other, and no message is longer than the limit.
pub pass_frames_iff :
    (limit : ℕ) (fs : List Frame)
    → limit < 2 ^ 64
    → ((t : Socket) × (pass_frames fs (open_socket limit) ≡ some t)) ↔ Conforms limit 0 false fs
unfolding open_socket
pass_frames_iff limit fs h =
    let r : InRange (open_socket limit) = record { message_low = omega arith; limit_low = h } in
    (
      λ p. pass-Conforms fs (open_socket limit) p.0 r p.1,
      λ k. Conforms-pass k (open_socket limit) r refl refl refl,
    )
