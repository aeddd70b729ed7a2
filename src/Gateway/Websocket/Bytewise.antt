-- ===== src/Gateway/Websocket/Bytewise.antt =====
-- internal/gateway/resource_websocket.go: `Write` against a machine that takes one byte at a time.
use cliproxy_portal.Common.{
  ℕ, zero, suc, ◌+◌, ◌-◌, ◌≤◌, ◌<◌, min, ◌≡◌, refl, sym, ap, ap₂, ◌∙◌, subst, inl, inr, Bool, true,
  false, ◌||◌, none, some, List, [], ◌∷◌, ◌++◌, append_assoc, arith, ltb, ◌==◌, if◌then◌else◌,
  ltb→lt, lt→ltb, ==_iff, Bool-cases, length, take, drop, take-append-drop, length-take_of_le,
  length-drop,
}
use cliproxy_portal.Gateway.Websocket.{
  write, Frame, Outcome, ongoing, stopped, Socket, Outcome, ongoing, WriteError, sink_write,
  take_reply, end_frame, header_byte, payload_piece, Written, resume, write_loop, length_bytes,
  parse_header, judge_frame, forward_header, accept_frame,
}

-- The reference: what one byte does.
unfoldable pub feed : ℕ → Socket → Outcome
feed b s = if ltb 0 s.remaining then payload_piece 1 (sink_write (b ∷ []) s) else header_byte b s

-- Where the machine stops, the byte of a header counts as consumed and a byte of payload does not.
abbrev pub halted : ℕ → Socket → Socket → WriteError → Written
halted n s t e = record {
  consumed = if ltb 0 s.remaining then n else n + 1;
  error = some e;
  socket = t;
}

unfoldable pub feed_from : ℕ → List ℕ → Socket → Written
feed_from n [] s = record { consumed = n; error = none; socket = s }
feed_from n (b ∷ p) s = resume (feed b s) (feed_from (n + 1) p) (halted n s)

-- What a piece of payload does when the connection takes it.
unfoldable pub settle : List ℕ → ℕ → Socket → Socket
settle taken left s =
    let t : Socket = record s { sent = taken; remaining = left } in
    if left == 0 then end_frame t else t

unfoldable pub pass_on : List ℕ → Socket → Socket
unfolding settle
pass_on q s = settle (s.sent ++ q) (s.remaining - length q) s

-- The connection takes all that it is given.
abbrev pub IsHealthy : Socket → Type 0
IsHealthy s = s.replies ≡ []

pub sink-healthy :
    (q : List ℕ) (s : Socket)
    → IsHealthy s
    → sink_write q s ≡ (length q, false, record s { sent = s.sent ++ q })
unfolding sink_write
sink-healthy q s h = ap (take_reply q s) h ∙ go
  where
    go : take_reply q s [] ≡ (length q, false, record s { sent = s.sent ++ q })
    go = refl

piece-healthy :
    (q : List ℕ) (s : Socket)
    → IsHealthy s
    → payload_piece (length q) (sink_write q s) ≡ ongoing (pass_on q s)
unfolding payload_piece pass_on
piece-healthy q s h = rw (sink-healthy q s h) (rw ((==_iff (length q) (length q)).1 refl) refl)

pub feed-payload :
    (b : ℕ) (s : Socket) → IsHealthy s → 0 < s.remaining → feed b s ≡ ongoing (pass_on (b ∷ []) s)
unfolding feed
feed-payload b s h lt = rw (lt→ltb 0 s.remaining lt) (piece-healthy (b ∷ []) s h)

pub pass_on-IsHealthy : (q : List ℕ) (s : Socket) → IsHealthy s → IsHealthy (pass_on q s)
unfolding pass_on end_frame
pass_on-IsHealthy q s h = ground arith

-- All but the last byte of a piece only shorten what remains.
pass_on-first :
    (b : ℕ) (s : Socket)
    → 1 < s.remaining
    → pass_on (b ∷ []) s ≡ record s { sent = s.sent ++ b ∷ []; remaining = s.remaining - 1 }
unfolding pass_on
pass_on-first b s lt = let e : (s.remaining - 1 == 0) ≡ false = ground arith in rw e refl

pass_on-cons :
    (b c : ℕ) (q : List ℕ) (s : Socket)
    → length (b ∷ c ∷ q) ≤ s.remaining
    → pass_on (b ∷ c ∷ q) s ≡ pass_on (c ∷ q) (pass_on (b ∷ []) s)
unfolding pass_on
pass_on-cons b c q s h = go ∙ sym (ap (pass_on (c ∷ q)) (pass_on-first b s (omega arith)))
  where
    go :
        settle (s.sent ++ b ∷ c ∷ q) (s.remaining - suc (suc (length q))) s
        ≡ settle ((s.sent ++ b ∷ []) ++ c ∷ q) (s.remaining - 1 - suc (length q)) s
    go = ap₂ (λ l r. settle l r s) (sym (append_assoc s.sent (b ∷ []) (c ∷ q))) (omega arith)

pass_on-remaining : (b : ℕ) (s : Socket) → (pass_on (b ∷ []) s).remaining ≡ s.remaining - 1
unfolding pass_on end_frame
pass_on-remaining b s = ground arith

pub feed_from-step :
    (n b : ℕ) (p : List ℕ) (s t : Socket)
    → feed b s ≡ ongoing t
    → feed_from n (b ∷ p) s ≡ feed_from (n + 1) p t
unfolding feed_from
feed_from-step n b p s t e = rw e refl

feed_from-piece :
    (b : ℕ) (q r : List ℕ) (s : Socket) (n : ℕ)
    → IsHealthy s
    → length (b ∷ q) ≤ s.remaining
    → feed_from n (b ∷ q ++ r) s ≡ feed_from (n + length (b ∷ q)) r (pass_on (b ∷ q) s)
feed_from-piece b [] r s n h le = feed_from-step n b r s _ (feed-payload b s h (omega arith))
feed_from-piece b (c ∷ q) r s n h le =
    feed_from-step n b (c ∷ q ++ r) s _ (feed-payload b s h (omega arith))
    ∙ feed_from-piece c q r (pass_on (b ∷ []) s) (n + 1) (pass_on-IsHealthy (b ∷ []) s h)
        (omega (arith, pass_on-remaining b s))
    ∙ rw (← pass_on-cons b c q s le)
        (ap (λ (k : ℕ). feed_from k r (pass_on (b ∷ c ∷ q) s)) (omega arith))

pub judge_frame-replies : (f : Frame) (s : Socket) → (judge_frame f s).0.replies ≡ s.replies
unfolding judge_frame
judge_frame-replies f s = ground arith

forward_header-IsHealthy :
    (f : Frame) (n k : ℕ) (failed : Bool) (s t : Socket)
    → IsHealthy s
    → forward_header f (n, failed, s) k ≡ ongoing t
    → IsHealthy t
unfolding forward_header
forward_header-IsHealthy f n k failed s t h e = ground arith

accept_frame-IsHealthy :
    (f : Frame) (header : List ℕ) (s t : Socket) (invalid : Bool)
    → IsHealthy s
    → accept_frame f header (s, invalid) ≡ ongoing t
    → IsHealthy t
unfolding accept_frame
accept_frame-IsHealthy f header s t true h e = cc
accept_frame-IsHealthy f header s t false h e =
    forward_header-IsHealthy f _ _ _ _ t h (rw (sink-healthy header s h) at e)

-- A header byte leaves the connection healthy.
pub header_byte-IsHealthy :
    (b : ℕ) (s t : Socket) → IsHealthy s → header_byte b s ≡ ongoing t → IsHealthy t
unfolding header_byte
header_byte-IsHealthy b s t h e =
    let header = s.header ++ b ∷ [] in
    let grown = record s { header = header } in
    elim (Bool-cases (ltb (length header) 2 || ltb (length header) (2 + length_bytes header + 4))) [
      | inl short ↦
          let same : ongoing grown ≡ ongoing t = rw short at e in
          let eq : grown ≡ t = cc in subst IsHealthy eq h
      | inr whole ↦
          accept_frame-IsHealthy (parse_header header) header _ t _
            (judge_frame-replies (parse_header header) grown ∙ h) (rw whole at e)
    ]

resume_congr :
    (o : Outcome) (f g : Socket → Written) (stop : Socket → WriteError → Written)
    → ((t : Socket) → o ≡ ongoing t → f t ≡ g t)
    → resume o f stop ≡ resume o g stop
resume_congr (ongoing t) f g stop h = h t refl
resume_congr (stopped e t) f g stop h = refl

payload_round :
    (j n b : ℕ) (p : List ℕ) (s : Socket) (next : Socket → Written)
    (stop : Socket → WriteError → Written)
    → IsHealthy s
    → suc j ≤ s.remaining
    → j ≤ length p
    → ((t : Socket) → IsHealthy t → next t ≡ feed_from (n + suc j) (drop j p) t)
    → resume (payload_piece (suc j) (sink_write (b ∷ take j p) s)) next stop ≡ feed_from n (b ∷ p) s
payload_round j n b p s next stop h room le ih =
    let q = b ∷ take j p in
    let long : length q ≡ suc j = ap suc (length-take_of_le j p le) in
    rw (← long) (
      rw (piece-healthy q s h) (
        ih (pass_on q s) (pass_on-IsHealthy q s h)
        ∙ rw (← long) (sym (feed_from-piece b (take j p) (drop j p) s n h (omega arith)))
        ∙ ap (λ (l : List ℕ). feed_from n (b ∷ l) s) (take-append-drop j p)))

pub feed_from-nil :
    (n : ℕ) (s : Socket) → feed_from n [] s ≡ record { consumed = n; error = none; socket = s }
unfolding feed_from
feed_from-nil n s = refl

pub feed_from-header :
    (n b : ℕ) (p : List ℕ) (s : Socket)
    → ltb 0 s.remaining ≡ false
    → feed_from n (b ∷ p) s
      ≡ resume
          (header_byte b s)
          (feed_from (n + 1) p)
          (λ t e. record { consumed = n + 1; error = some e; socket = t })
unfolding feed_from feed
feed_from-header n b p s e =
    ap
      (λ (payload : Bool).
        resume (if payload then payload_piece 1 (sink_write (b ∷ []) s) else header_byte b s)
          (feed_from (n + 1) p)
          (λ t x. record { consumed = if payload then n else n + 1; error = some x; socket = t }))
      e

-- The two loops agree whenever there is as much fuel as there are bytes.
write_loop-feed :
    (fuel n : ℕ) (p : List ℕ) (s : Socket)
    → length p ≤ fuel
    → IsHealthy s
    → write_loop fuel n p s ≡ feed_from n p s
unfolding write_loop
write_loop-feed fuel n [] s le h = sym (feed_from-nil n s)
write_loop-feed zero n (b ∷ p) s le h = absurd (omega arith)
write_loop-feed (suc fuel) n (b ∷ p) s le h = elim (Bool-cases (ltb 0 s.remaining)) [
  | inl payload ↦
      let some_left = ltb→lt 0 s.remaining payload in
      let j = min (suc (length p)) s.remaining - 1 in
      let e : min (suc (length p)) s.remaining ≡ suc j = omega arith in
      rw (payload, e)
        (payload_round j n b p s _ _ h (omega arith) (omega arith) (λ t ht.
          write_loop-feed fuel (n + suc j) (drop j p) t (omega (arith, length-drop j p)) ht))
  | inr head ↦
      rw (head, feed_from-header n b p s head)
        (resume_congr (header_byte b s) (λ t. write_loop fuel (n + 1) p t) (feed_from (n + 1) p) _
          (λ t e. write_loop-feed fuel (n + 1) p t (omega arith) (header_byte-IsHealthy b s t h e)))
]

-- While the connection below takes what it is given, `Write` does with a piece of input, whatever
-- its length, what the machine does that takes its bytes one at a time.
pub write-feed_from : (p : List ℕ) (s : Socket) → IsHealthy s → write p s ≡ feed_from 0 p s
unfolding write
write-feed_from p s h = write_loop-feed (length p) 0 p s le_self h
  where
    le_self : length p ≤ length p
    le_self = omega arith
