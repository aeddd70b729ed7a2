-- ===== src/Gateway/Websocket.antt =====
-- internal/gateway/resource_websocket.go: the filter on the bytes that a client writes to an
-- upgraded connection. A byte is a number below 256, a length a number below 2 ^ 64.
pub mod Bytewise
pub mod Stream
pub mod Messages
use cliproxy_portal.Common.{
  ℕ, zero, suc, ◌+◌, ◌-◌, ◌*◌, ◌/◌, ◌%◌, ◌^◌, min, Bool, true, false, not, ◌&&◌, ◌||◌, Option, none,
  some, List, [], ◌∷◌, ◌++◌, ltb, leb, ◌==◌, if◌then◌else◌, length, take, drop,
}

-- One answer of the connection below: how many bytes it took, and whether it failed. A writer
-- takes at most the bytes it is given.
pub record Reply : Type 0 where
  pub count : ℕ
  pub failed : Bool

-- `sent` is what the connection below has taken; `replies` are its answers to come, and behind
-- them every write succeeds. `rejections` counts the calls of `onReject`.
pub record Socket : Type 0 where
  pub limit : ℕ
  pub header : List ℕ
  pub remaining : ℕ
  pub message : ℕ
  pub message_open : Bool
  pub final : Bool
  pub control : Bool
  pub too_large : Bool
  pub close_sent : Bool
  pub sent : List ℕ
  pub closed : Bool
  pub rejections : ℕ
  pub replies : List Reply

pub data WriteError : Type 0 where
  short_write sink_failed frame_rejected : WriteError

-- The loop goes on, or `Write` returns.
pub data Outcome : Type 0 where
  ongoing : Socket → Outcome
  stopped : WriteError → Socket → Outcome

abbrev pub get_or : List ℕ → ℕ → ℕ
get_or [] i = 0
get_or (x ∷ xs) zero = x
get_or (x ∷ xs) (suc i) = get_or xs i

-- Big-endian reading of the bytes.
pub big_endian : List ℕ → ℕ → ℕ
big_endian [] acc = acc
big_endian (b ∷ bs) acc = big_endian bs (acc * 256 + b)

unfoldable pub take_reply : List ℕ → Socket → List Reply → ℕ × Bool × Socket
take_reply p s [] = (length p, false, record s { sent = s.sent ++ p })
take_reply p s (r ∷ rs) =
    let n = min r.count (length p) in
    (n, r.failed, record s { sent = s.sent ++ take n p; replies = rs })

unfoldable pub sink_write : List ℕ → Socket → ℕ × Bool × Socket
unfolding take_reply
sink_write p s = take_reply p s s.replies

unfoldable pub end_frame : Socket → Socket
end_frame s = if not s.control && s.final then record s { message_open = false; message = 0 } else s

-- The callback runs once; the connection is closed every time.
unfoldable pub reject : Socket → Socket
reject s = record s {
  too_large = true;
  rejections = if s.too_large then s.rejections else s.rejections + 1;
  closed = true;
}

-- What the header says.
pub record Frame : Type 0 where
  pub opcode : ℕ
  pub reserved : ℕ
  pub masked : Bool
  pub final : Bool
  pub size : ℕ

abbrev pub length_code : List ℕ → ℕ
length_code header = get_or header 1 % 128

unfoldable pub length_bytes : List ℕ → ℕ
length_bytes header =
    if length_code header == 126 then 2 else if length_code header == 127 then 8 else 0

abbrev pub is_control : Frame → Bool
is_control f = leb 8 f.opcode

unfoldable pub parse_header : List ℕ → Frame
unfolding length_bytes big_endian
parse_header header = record {
  opcode = get_or header 0 % 16;
  reserved = get_or header 0 / 16 % 8;
  masked = get_or header 1 / 128 % 2 == 1;
  final = get_or header 0 / 128 % 2 == 1;
  size =
      if length_bytes header == 2
      then big_endian (take 2 (drop 2 header)) 0
      else if length_bytes header == 8
      then big_endian (take 8 (drop 2 header)) 0
      else length_code header;
}

-- The tests on a frame of any kind, on a control frame, and on a data frame.
unfoldable pub bad_framing : Frame → Bool
bad_framing f = not (f.reserved == 0) || not f.masked || leb (2 ^ 63) f.size

unfoldable pub bad_control : Frame → Bool
bad_control f =
    not f.final || ltb 125 f.size || not (f.opcode == 8 || f.opcode == 9 || f.opcode == 10)

unfoldable pub bad_data : Frame → Bool → Bool
bad_data f message_open =
    not (f.opcode == 0 || f.opcode == 1 || f.opcode == 2)
    || (f.opcode == 0 && not message_open)
    || (not (f.opcode == 0) && message_open)

-- A frame with an opcode of its own starts a message.
abbrev pub open_message : Frame → Socket → Socket
open_message f s = if f.opcode == 0 then s else record s { message = 0; message_open = true }

-- `w.limit - w.message` on uint64.
abbrev pub room : Socket → ℕ
room s = (s.limit + 2 ^ 64 - s.message) % 2 ^ 64

count_length : Frame → Socket → Socket × Bool
count_length f s =
    if ltb (room s) f.size
    then (s, true)
    else (record s { message = (s.message + f.size) % 2 ^ 64 }, false)

-- The socket with the frame's flags and its length counted, and whether the frame is invalid.
unfoldable pub judge_frame : Frame → Socket → Socket × Bool
unfolding count_length bad_framing bad_control bad_data
judge_frame f s =
    let flagged : Socket = record s { final = f.final; control = is_control f } in
    if is_control f
    then (flagged, bad_framing f || bad_control f)
    else (let (counted, over) = count_length f (open_message f flagged) in
        (counted, bad_framing f || bad_data f s.message_open || over))

-- The header goes out whole, and the payload is due.
unfoldable pub forward_header : Frame → ℕ × Bool × Socket → ℕ → Outcome
unfolding end_frame
forward_header f (n, failed, s) header_length =
    if failed
    then stopped sink_failed s
    else if n == header_length
    then (let begun : Socket = record s { header = []; remaining = f.size } in
        ongoing (if f.size == 0 then end_frame begun else begun))
    else stopped short_write s

unfoldable pub accept_frame : Frame → List ℕ → Socket × Bool → Outcome
accept_frame f header (s, invalid) =
    if invalid
    then stopped frame_rejected (reject s)
    else forward_header f (sink_write header s) (length header)

-- One more byte of a header.
unfoldable pub header_byte : ℕ → Socket → Outcome
header_byte b s =
    let header = s.header ++ b ∷ [] in
    let grown : Socket = record s { header = header } in
    if ltb (length header) 2 || ltb (length header) (2 + length_bytes header + 4)
    then ongoing grown
    else accept_frame (parse_header header) header (judge_frame (parse_header header) grown)

-- A piece of payload, n bytes of it.
unfoldable pub payload_piece : ℕ → ℕ × Bool × Socket → Outcome
unfolding end_frame
payload_piece n (written, failed, s) =
    let left : Socket = record s { remaining = s.remaining - written } in
    if failed
    then stopped sink_failed left
    else if written == n
    then ongoing (if left.remaining == 0 then end_frame left else left)
    else stopped short_write left

pub record Written : Type 0 where
  pub consumed : ℕ
  pub error : Option WriteError
  pub socket : Socket

abbrev pub resume : Outcome → (Socket → Written) → (Socket → WriteError → Written) → Written
resume (ongoing s) next stop = next s
resume (stopped e s) next stop = stop s e

-- The loop of `Write`, with as much fuel as there are bytes: each round consumes one at least.
-- `consumed` counts those before. A failing sink is counted for what it took.
unfoldable pub write_loop : ℕ → ℕ → List ℕ → Socket → Written
write_loop fuel consumed [] s = record { consumed = consumed; error = none; socket = s }
write_loop zero consumed (b ∷ p) s = record { consumed = consumed; error = none; socket = s }
write_loop (suc fuel) consumed (b ∷ p) s =
    let n = min (length (b ∷ p)) s.remaining in
    let answer = sink_write (take n (b ∷ p)) s in
    let in_payload =
      resume (payload_piece n answer) (λ t. write_loop fuel (consumed + n) (drop n (b ∷ p)) t)
        (λ t e. record { consumed = consumed + answer.0; error = some e; socket = t }) in
    let in_header =
      resume (header_byte b s) (λ t. write_loop fuel (consumed + 1) p t)
        (λ t e. record { consumed = consumed + 1; error = some e; socket = t }) in
    if ltb 0 s.remaining then in_payload else in_header

unfoldable pub write : List ℕ → Socket → Written
unfolding write_loop
write p s = write_loop (length p) 0 p s

-- `Read` passes the connection's bytes up, but the first read of four bytes or more after a
-- rejection gives a close frame with status 1009 instead.
unfoldable pub read : ℕ → List ℕ → Socket → List ℕ × Socket
read size below s =
    if s.too_large && not s.close_sent && leb 4 size
    then (0x88 ∷ 0x02 ∷ 0x03 ∷ 0xf1 ∷ [], record s { close_sent = true })
    else (below, s)

unfoldable pub open_socket : ℕ → Socket
open_socket limit = record {
  limit = limit;
  header = [];
  remaining = 0;
  message = 0;
  message_open = false;
  final = false;
  control = false;
  too_large = false;
  close_sent = false;
  sent = [];
  closed = false;
  rejections = 0;
  replies = [];
}
