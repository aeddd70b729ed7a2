-- ===== src/Gateway/Websocket/Stream.antt =====
-- internal/gateway/resource_websocket.go: what the connection below receives of the client's bytes.
use native.Mathlib.Nat.{add-zero}
use cliproxy_portal.Common.{
  ℕ, suc, ◌+◌, ◌^◌, ◌≤◌, ◌<◌, ◌≡◌, refl, sym, ap, ◌∙◌, ◌⊎◌, inl, inr, Bool, true, false, ◌||◌,
  Option, none, some, List, [], ◌∷◌, ◌++◌, append_assoc, append-nil, arith, ltb, ◌==◌,
  if◌then◌else◌, ltb→lt, ==_iff, Bool-cases, length, take,
}
use cliproxy_portal.Gateway.Websocket.{
  WriteError, Outcome, ongoing, stopped, reject, Written, resume, write, Socket, Frame, judge_frame,
  end_frame, length_bytes, parse_header, forward_header, accept_frame, header_byte, frame_rejected,
  sink_write, payload_piece, open_socket,
}
use cliproxy_portal.Gateway.Websocket.Bytewise.{
  feed, settle, halted, IsHealthy, pass_on, sink-healthy, feed-payload, judge_frame-replies,
  feed_from, write-feed_from,
}

-- A healthy connection whose limit and count are in range; while payload is due no header is
-- collected.
pub record IsSound (s : Socket) : Type 0 where
  pub healthy : IsHealthy s
  pub no_header : (s.header ≡ []) ⊎ (s.remaining ≡ 0)
  pub counted : s.message ≤ s.limit
  pub limit_range : s.limit < 2 ^ 64

-- What the client has sent so far, as far as it is kept.
abbrev pub received : Socket → List ℕ
received s = s.sent ++ s.header

judge_frame-keeps :
    (f : Frame) (s : Socket)
    → ((judge_frame f s).0.sent ≡ s.sent)
      × ((judge_frame f s).0.header ≡ s.header)
      × ((judge_frame f s).0.limit ≡ s.limit)
      × ((judge_frame f s).0.remaining ≡ s.remaining)
unfolding judge_frame
judge_frame-keeps f s = ground arith

judge_frame-counted :
    (f : Frame) (s : Socket)
    → s.message ≤ s.limit
    → s.limit < 2 ^ 64
    → (judge_frame f s).0.message ≤ s.limit
unfolding judge_frame
judge_frame-counted f s h k = ground arith

-- What a byte leads to: it is kept behind the others; only a header's last byte can stop the
-- machine, with nothing forwarded and the connection closed.
abbrev pub Good : ℕ → Socket → Outcome → Type 0
Good b s (ongoing t) = IsSound t × (received t ≡ received s ++ b ∷ [])
Good b s (stopped e t) =
    (s.remaining ≡ 0)
    × (e ≡ frame_rejected)
    × (t.closed ≡ true)
    × (t.too_large ≡ true)
    × (t.sent ≡ s.sent)
    × (received t ≡ received s ++ b ∷ [])

pass_on-IsSound : (q : List ℕ) (s : Socket) → s.header ≡ [] → IsSound s → IsSound (pass_on q s)
unfolding pass_on settle end_frame
pass_on-IsSound q s e h = record {
  healthy = ground (arith, h.healthy);
  no_header = inl (ground arith);
  counted = ground (arith, h.counted);
  limit_range = ground (arith, h.limit_range);
}

pass_on-kept :
    (q : List ℕ) (s : Socket)
    → ((pass_on q s).sent ≡ s.sent ++ q) × ((pass_on q s).header ≡ s.header)
unfolding pass_on settle end_frame
pass_on-kept q s = ground arith

payload-Good : (b : ℕ) (s : Socket) → IsSound s → 0 < s.remaining → Good b s (feed b s)
payload-Good b s h lt =
    let e : s.header ≡ [] = ground (arith, h.no_header) in
    let (sent, header) = pass_on-kept (b ∷ []) s in
    rw (feed-payload b s h.healthy lt) (
      pass_on-IsSound (b ∷ []) s e h,
      rw (sent, header, e) (append-nil _ ∙ sym (ap (λ (l : List ℕ). l ++ b ∷ []) (append-nil _))),
    )

-- A header that is complete, in a socket that holds it.
module _ (b : ℕ) (s : Socket) (header : List ℕ) (f : Frame) (h : IsSound s) (z : s.remaining ≡ 0)
    (same : header ≡ s.header ++ b ∷ []) where
  abbrev judged : Socket
  judged = (judge_frame f (record s { header = header })).0

  begun : Socket
  begun = record judged { sent = judged.sent ++ header; header = []; remaining = f.size }

  begun-IsSound : IsSound begun
  unfolding begun
  begun-IsSound =
      let (sent, head, limit, remaining) = judge_frame-keeps f (record s { header = header }) in
      record {
        healthy = judge_frame-replies f (record s { header = header }) ∙ h.healthy;
        no_header = inl refl;
        counted =
            rw limit (judge_frame-counted f (record s { header = header }) h.counted h.limit_range);
        limit_range = rw limit h.limit_range;
      }

  end_frame-IsSound : (t : Socket) → IsSound t → IsSound (end_frame t)
  unfolding end_frame
  end_frame-IsSound t k = record {
    healthy = ground (arith, k.healthy);
    no_header = ground (arith, k.no_header);
    counted = ground (arith, k.counted);
    limit_range = ground (arith, k.limit_range);
  }

  end_frame-kept : (t : Socket) → received (end_frame t) ≡ received t
  unfolding end_frame
  end_frame-kept t = ground arith

  begun-kept : received begun ≡ received s ++ b ∷ []
  unfolding begun
  begun-kept =
      append-nil _
      ∙ rw ((judge_frame-keeps f (record s { header = header })).0, same)
          (sym (append_assoc s.sent s.header (b ∷ [])))

  forwarded : Good b s (
      forward_header f
        (length header, false, record judged { sent = judged.sent ++ header })
        (length header))
  unfolding forward_header begun
  forwarded =
      rw ((==_iff (length header) (length header)).1 refl) (elim (Bool-cases (f.size == 0)) [
        | inl none_due ↦
            rw none_due (end_frame-IsSound begun begun-IsSound, end_frame-kept begun ∙ begun-kept)
        | inr due ↦ rw due (begun-IsSound, begun-kept)
      ])

  accept-Good : (invalid : Bool) → Good b s (accept_frame f header (judged, invalid))
  unfolding accept_frame reject
  accept-Good true =
      let (sent, head, limit, remaining) = judge_frame-keeps f (record s { header = header }) in
      (
        z,
        refl,
        refl,
        refl,
        sent,
        rw (sent, head, same) (sym (append_assoc s.sent s.header (b ∷ []))),
      )
  accept-Good false =
      rw
        (sink-healthy header judged
          (judge_frame-replies f (record s { header = header }) ∙ h.healthy))
        forwarded

header-Good : (b : ℕ) (s : Socket) → IsSound s → s.remaining ≡ 0 → Good b s (header_byte b s)
unfolding header_byte
header-Good b s h z =
    let header = s.header ++ b ∷ [] in
    elim (Bool-cases (ltb (length header) 2 || ltb (length header) (2 + length_bytes header + 4))) [
      | inl short ↦ rw short (
        record {
          healthy = h.healthy;
          no_header = inr z;
          counted = h.counted;
          limit_range = h.limit_range;
        },
        sym (append_assoc s.sent s.header (b ∷ [])),
      )
      | inr whole ↦ rw whole (accept-Good b s header (parse_header header) h z refl _)
    ]

feed-header : (b : ℕ) (s : Socket) → ltb 0 s.remaining ≡ false → feed b s ≡ header_byte b s
unfolding feed
feed-header b s e =
    ap
      (λ (payload : Bool).
        if payload then payload_piece 1 (sink_write (b ∷ []) s) else header_byte b s)
      e

feed-Good : (b : ℕ) (s : Socket) → IsSound s → Good b s (feed b s)
feed-Good b s h = elim (Bool-cases (ltb 0 s.remaining)) [
  | inl payload ↦ payload-Good b s h (ltb→lt 0 s.remaining payload)
  | inr head ↦ rw (feed-header b s head) (header-Good b s h (ground arith))
]

-- What `Write` returns on n bytes consumed before it and a piece of input.
pub record Delivered (n : ℕ) (p : List ℕ) (s : Socket) (w : Written) : Type 0 where
  pub count : ℕ
  pub consumed_eq : w.consumed ≡ n + count
  pub count_low : count ≤ length p
  pub kept : received w.socket ≡ received s ++ take count p
  pub ended :
      (w.error ≡ none) × (count ≡ length p) × IsSound w.socket
      ⊎ (w.error ≡ some frame_rejected) × (w.socket.closed ≡ true) × (w.socket.too_large ≡ true)

feed_from-Delivered :
    (p : List ℕ) (n : ℕ) (s : Socket) → IsSound s → Delivered n p s (feed_from n p s)
unfolding feed_from
feed_from-Delivered [] n s h = record {
  count = 0;
  consumed_eq = omega arith;
  count_low = omega arith;
  kept = sym (append-nil _);
  ended = inl (refl, refl, h);
}
feed_from-Delivered (b ∷ p) n s h =
    go (feed b s) (feed-Good b s h) (λ t k. feed_from-Delivered p (n + 1) t k)
  where
    go :
        (o : Outcome)
        → Good b s o
        → ((t : Socket) → IsSound t → Delivered (n + 1) p t (feed_from (n + 1) p t))
        → Delivered n (b ∷ p) s (resume o (feed_from (n + 1) p) (halted n s))
    go (ongoing t) (sound, kept) ih =
        let d = ih t sound in
        record {
          count = suc d.count;
          consumed_eq = omega (arith, d.consumed_eq);
          count_low = omega (arith, d.count_low);
          kept =
              d.kept
              ∙ ap (λ (l : List ℕ). l ++ take d.count p) kept
              ∙ append_assoc (received s) (b ∷ []) (take d.count p);
          ended = elim d.ended [ inl (e, c, k) ↦ inl (e, ap suc c, k) | inr stop ↦ inr stop ];
        }
    go (stopped e t) (z, rejected, closed, large, sent, kept) ih = record {
      count = 1;
      consumed_eq = rw z refl;
      count_low = omega arith;
      kept = kept;
      ended = inr (ap some rejected, closed, large);
    }

-- On a sound socket `Write` either consumes all of its input, keeps it unaltered behind what it
-- forwarded before, less the header that is still incomplete, and leaves the socket sound; or it
-- stops at the last byte of a bad frame's header, reports it, and has closed the connection and
-- set the flag by which the next read tells the client. In both cases no byte consumed is lost.
pub write-Delivered : (p : List ℕ) (s : Socket) → IsSound s → Delivered 0 p s (write p s)
write-Delivered p s h = rw (write-feed_from p s h.healthy) (feed_from-Delivered p 0 s h)

abbrev pub advance : ℕ → Written → Written
advance n w = record w { consumed = n + w.consumed }

feed_from-advance :
    (p : List ℕ) (n k : ℕ) (s : Socket) → feed_from (n + k) p s ≡ advance n (feed_from k p s)
unfolding feed_from
feed_from-advance [] n k s = refl
feed_from-advance (b ∷ p) n k s = go (feed b s) (λ t. feed_from-advance p n (k + 1) t)
  where
    go :
        (o : Outcome)
        → ((t : Socket) → feed_from (n + (k + 1)) p t ≡ advance n (feed_from (k + 1) p t))
        → resume o (feed_from (n + k + 1) p) (halted (n + k) s)
          ≡ advance n (resume o (feed_from (k + 1) p) (halted k s))
    go (ongoing t) ih = ap (λ (c : ℕ). feed_from c p t) (omega arith) ∙ ih t
    go (stopped e t) ih = ground arith

feed_from-append :
    (p q : List ℕ) (n : ℕ) (s : Socket)
    → (feed_from n p s).error ≡ none
    → feed_from n (p ++ q) s ≡ feed_from (feed_from n p s).consumed q (feed_from n p s).socket
unfolding feed_from
feed_from-append [] q n s e = refl
feed_from-append (b ∷ p) q n s e = go (feed b s) (λ t. feed_from-append p q (n + 1) t) e
  where
    go :
        (o : Outcome)
        → ((t : Socket)
            → (feed_from (n + 1) p t).error ≡ none
            → feed_from (n + 1) (p ++ q) t
              ≡ feed_from (feed_from (n + 1) p t).consumed q (feed_from (n + 1) p t).socket)
        → (resume o (feed_from (n + 1) p) (halted n s)).error ≡ none
        → resume o (feed_from (n + 1) (p ++ q)) (halted n s)
          ≡ feed_from
              (resume o (feed_from (n + 1) p) (halted n s)).consumed
              q
              (resume o (feed_from (n + 1) p) (halted n s)).socket
    go (ongoing t) ih h = ih t h
    go (stopped x t) ih h = cc

write-success :
    (p : List ℕ) (s : Socket)
    → IsSound s
    → (write p s).error ≡ none
    → ((write p s).consumed ≡ length p) × IsSound (write p s).socket
write-success p s h e =
    let d = write-Delivered p s h in
    elim d.ended [
      | inl (_, whole, sound) ↦ (omega (arith, d.consumed_eq), sound)
      | inr (stop, _, _) ↦ absurd (none-ne-some (sym e ∙ stop))
    ]
  where
    none-ne-some : {x : WriteError} → ◌≡◌ {A = Option WriteError} none (some x) → ⊥
    none-ne-some h = cc

-- How the client's bytes are cut into pieces makes no difference: on a sound socket a write that
-- succeeds, followed by another, does what one write of both pieces does.
pub write-append :
    (p q : List ℕ) (s : Socket)
    → IsSound s
    → (write p s).error ≡ none
    → write (p ++ q) s ≡ advance (length p) (write q (write p s).socket)
write-append p q s h e =
    let (whole, sound) = write-success p s h e in
    write-feed_from (p ++ q) s h.healthy
    ∙ feed_from-append p q 0 s (rw (write-feed_from p s h.healthy) at e)
    ∙ rw (← write-feed_from p s h.healthy, whole)
        (ap (λ (n : ℕ). feed_from n q (write p s).socket) (sym (add-zero (length p)))
          ∙ feed_from-advance q (length p) 0 (write p s).socket
          ∙ ap (advance (length p)) (sym (write-feed_from q (write p s).socket sound.healthy)))

pub open_socket-IsSound : (limit : ℕ) → limit < 2 ^ 64 → IsSound (open_socket limit)
unfolding open_socket
open_socket-IsSound limit h = record {
  healthy = refl;
  no_header = inl refl;
  counted = omega arith;
  limit_range = h;
}
