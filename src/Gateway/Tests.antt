-- ===== src/Gateway/Tests.antt =====
-- internal/gateway: two small frames through the filter, and two small bodies.
use cliproxy_portal.Common.{
  ℕ, ◌≤◌, ◌≡◌, refl, ◌↔◌, ◌⊎◌, Bool, true, false, none, some, List, [], ◌∷◌, ◌++◌, arith, ltb,
  if◌then◌else◌, length, pos, lookup, delete, insert,
}
use cliproxy_portal.Gateway.Websocket.{Socket, Frame, write, header_byte, length_bytes, open_socket}
use cliproxy_portal.Gateway.Websocket.Bytewise.{feed_from, write-feed_from}
use cliproxy_portal.Gateway.Websocket.Stream.{Delivered, write-Delivered, write-append, advance, open_socket-IsSound}
use cliproxy_portal.Gateway.Websocket.Messages.{Conforms, pass_frames, pass_frames_iff}
use cliproxy_portal.Gateway.Body.{Source, Decoders, identity, gzip, unknown, deflate, encodings, open_layer, prepare_body, ready, rejected, read_all, reverse_onto, decode_layers, decode_layer, copy_limited, store_copy, encoding_of}
use cliproxy_portal.Gateway.Body.Limits.{Unpacks, prepare_sound, prepare_iff}
use cliproxy_portal.Gateway.Body.Observed.{unread, sum, observed-once}
use cliproxy_portal.Common.Float.{hundredths}
use cliproxy_portal.ResourceControl.Policy.{Policy, default_policy}
use cliproxy_portal.ResourceControl.Controller.{State, Gap, Lease, new_controller, event_with_status}
use cliproxy_portal.ResourceControl.Admission.{acquire_request, admit, admission_reason, grant, finish, finish_lease, model_done, model_done_lease, record_status, lease_event}
use cliproxy_portal.ResourceControl.Interleaving.{init}
use cliproxy_portal.Gateway.Serve.{Request, Passage, passed, answered, serve_http, serve_admitted, serve_prepared, close_request, refusal_status}
use cliproxy_portal.Gateway.Timing.{TimingConn, state_idle, accept, activate, leave}
use cliproxy_portal.Gateway.Timing.Order.{Reach, Reach-start, active, accepts, begins, rests, resumes}

-- A masked text of two bytes, cut within its header.
abbrev first : List ℕ
first = 129 ∷ 130 ∷ 1 ∷ []

abbrev second_piece : List ℕ
second_piece = 2 ∷ 3 ∷ 4 ∷ 104 ∷ 105 ∷ []

abbrev socket : Socket
socket = open_socket 10

-- A frame without a mask.
abbrev unmasked : List ℕ
unmasked = 129 ∷ 2 ∷ 104 ∷ 105 ∷ []

write-feed_from_example : write first socket ≡ feed_from 0 first socket
unfolding open_socket
write-feed_from_example = write-feed_from first socket refl

write-Delivered_example : Delivered 0 unmasked socket (write unmasked socket)
write-Delivered_example = write-Delivered unmasked socket (open_socket-IsSound 10 (omega arith))

write-append_example :
    write (first ++ second_piece) socket
    ≡ advance (length first) (write second_piece (write first socket).socket)
unfolding open_socket write header_byte length_bytes
write-append_example =
    write-append first second_piece socket (open_socket-IsSound 10 (omega arith)) refl

abbrev text : Frame
text = record { opcode = 1; reserved = 0; masked = true; final = true; size = 2 }

pass_frames_iff_example :
    ((t : Socket) × (pass_frames (text ∷ text ∷ []) (open_socket 10) ≡ some t))
    ↔ Conforms 10 0 false (text ∷ text ∷ [])
pass_frames_iff_example = pass_frames_iff 10 (text ∷ text ∷ []) (omega arith)

-- A decoder that doubles what it reads.
abbrev doubling : Decoders
doubling = record {
  gzip = λ b. some record { bytes = b ++ b; fails = false };
  zlib = λ b. none;
  zstd = λ b. none;
  flate = λ b. record { bytes = b; fails = false };
}

abbrev small : Source
small = record { bytes = 1 ∷ 2 ∷ []; fails = false }

decoding : Unit {0}
unfolding prepare_body decode_layers decode_layer open_layer copy_limited store_copy encoding_of
decoding = tt

-- "GZIP, " and "br".
encodings_test :
    (encodings (b'G' ∷ b'Z' ∷ b'I' ∷ b'P' ∷ b',' ∷ b' ' ∷ []) ≡ gzip ∷ identity ∷ [])
    × (encodings (b'b' ∷ b'r' ∷ []) ≡ unknown ∷ [])
unfolding decoding encodings
encodings_test = (refl, refl)

prepare_test :
    (prepare_body doubling 3 (gzip ∷ []) [] small ≡ rejected 413)
    × (prepare_body doubling 8 (unknown ∷ []) [] small ≡ rejected 415)
    × (prepare_body doubling 8 (gzip ∷ []) (true ∷ false ∷ []) small ≡ rejected 503)
    × (prepare_body doubling 8 (gzip ∷ gzip ∷ []) [] small ≡ ready (1 ∷ 2 ∷ []))
unfolding decoding
prepare_test = (refl, refl, refl, refl)

prepare_sound_example :
    (1 ∷ 2 ∷ [] ≡ small.bytes)
    × (small.fails ≡ false)
    × (length small.bytes ≤ 8)
    × (length (gzip ∷ deflate ∷ []) ≤ 3)
    × Unpacks doubling 8 (deflate ∷ gzip ∷ []) small.bytes
unfolding decoding
prepare_sound_example = prepare_sound doubling 8 (gzip ∷ deflate ∷ []) [] small (1 ∷ 2 ∷ []) refl

prepare_iff_example :
    (prepare_body doubling 8 (gzip ∷ deflate ∷ []) [] small ≡ ready small.bytes)
    ↔ (small.fails ≡ false)
      × (length small.bytes ≤ 8)
      × (length (gzip ∷ deflate ∷ []) ≤ 3)
      × Unpacks doubling 8 (reverse_onto (gzip ∷ deflate ∷ []) []) small.bytes
prepare_iff_example = prepare_iff doubling 8 (gzip ∷ deflate ∷ []) small

observed-once_example :
    (read_all (3 ∷ 4 ∷ 5 ∷ []) (unread 6)).reports ≡ (if ltb 6 (sum (3 ∷ 4 ∷ 5 ∷ [])) then 1 else 0)
observed-once_example = observed-once 6 (3 ∷ 4 ∷ 5 ∷ [])

abbrev idle : Gap hundredths
idle = record { before = λ s. s; after = λ s. s; resumed = 0 }

abbrev limits : Policy hundredths
limits = record (default_policy hundredths) {
  mode = "enforce";
  cpu_percent = 0;
  memory_mib = pos 0;
}

abbrev request : Request
request = record {
  inference = true;
  owner = some "ann";
  content_length = pos 2;
  is_post = true;
  has_body = true;
  is_upgrade = false;
  encodings = gzip ∷ [];
  files = [];
  body = small;
}

-- The gateway proper, doing nothing to the controller.
abbrev proxy : Passage → State hundredths → State hundredths × Bool
proxy how s = (s, false)

serving : Unit {0}
unfolding decoding serve_http serve_admitted serve_prepared close_request refusal_status
    acquire_request admit admission_reason grant finish finish_lease model_done model_done_lease
    default_policy init new_controller lookup insert delete record_status lease_event
    event_with_status
serving = tt

serve_test :
    ((serve_http idle idle idle (λ s. s) proxy doubling (init limits) request 0).1
      ≡ passed record { checked = true; observed = false; plain_frames = false })
    × ((serve_http idle idle idle
          (λ s. s)
          proxy
          doubling
          (init limits)
          (record request { content_length = pos 99999999 })
          0).1
        ≡ answered 413 "request_too_large")
    × ((serve_http idle idle idle (λ s. s) proxy doubling (init limits) request 0).0.ctl.active
        ≡ pos 0)
unfolding serving
serve_test = (refl, refl, refl)

abbrev admitted : State hundredths
admitted = (acquire_request idle idle (init limits) "ann" (pos 2) 0).0

abbrev lease : Lease hundredths
lease = record { user = "ann"; policy = limits; model_done = false; finished = false }

-- A second request on a connection, 20 after the end of the first.
abbrev second_request : TimingConn
second_request = activate 50 (leave state_idle 30 (activate 12 (accept 10)))

second_request-Reach : Reach 30 50 active second_request
second_request-Reach =
    resumes 50 (rests 30 (begins 12 (accepts (omega arith)) (omega arith)) (omega arith))
      (omega arith)

Reach-start_example :
    (30 ≤ second_request.start)
    × (second_request.start ≤ 50)
    × ((second_request.first_write_at ≡ 0)
        ⊎ (second_request.start ≤ second_request.first_write_at)
          × (second_request.first_write_at ≤ 50))
Reach-start_example = Reach-start 30 50 second_request second_request-Reach
