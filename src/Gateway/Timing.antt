-- ===== src/Gateway/Timing.antt =====
-- internal/gateway/server_timing.go: the times that a connection keeps for the request at hand. A
-- time is the number of nanoseconds since Go's zero time; the connection below is not modelled, its
-- answers are arguments.
pub mod Order
use cliproxy_portal.Common.{
  ℕ, zero, suc, String, Bool, true, false, not, ◌&&◌, ◌||◌, Option, none, some, List, [], ◌∷◌, ◌++◌,
  ltb, leb, ◌==◌, if◌then◌else◌, length,
}

-- What the callback `finish` is called with, and which request's callback it is.
pub record Report : Type 0 where
  pub request : ℕ
  pub at : ℕ
  pub first_write : ℕ
  pub failed : Bool

pub record TimingConn : Type 0 where
  pub accepted_at : ℕ
  pub idle : Bool
  pub read_at : ℕ
  pub start : ℕ
  pub start_source : String
  pub first_write_at : ℕ
  pub write_failed : Bool
  pub finish : Option ℕ
  pub reports : List Report

-- The states of a connection that `ConnState` acts on.
pub data ConnState : Type 0 where
  state_idle state_closed state_hijacked : ConnState

unfoldable pub accept : ℕ → TimingConn
accept now = record {
  accepted_at = now;
  idle = false;
  read_at = 0;
  start = 0;
  start_source = "";
  first_write_at = 0;
  write_failed = false;
  finish = none;
  reports = [];
}

-- A read that gave n bytes.
unfoldable pub read : (n now : ℕ) → TimingConn → TimingConn
read n now c = if ltb 0 n && c.idle && (c.read_at == 0) then record c { read_at = now } else c

-- "HTTP/1.1xx" begins an informational response.
abbrev has_prefix : List ℕ → List ℕ → Bool
has_prefix p [] = true
has_prefix [] (x ∷ xs) = false
has_prefix (b ∷ p) (x ∷ xs) = (b == x) && has_prefix p xs

abbrev nth : List ℕ → ℕ → ℕ
nth [] i = 0
nth (b ∷ p) zero = b
nth (b ∷ p) (suc i) = nth p i

informational : List ℕ → Bool
informational p =
    leb 12 (length p)
    && has_prefix p (b'H' ∷ b'T' ∷ b'T' ∷ b'P' ∷ b'/' ∷ b'1' ∷ b'.' ∷ [])
    && (nth p 9 == b'1')

-- A write of p that began at a time, of which n bytes were taken.
unfoldable pub write : (p : List ℕ) (n : ℕ) (failed : Bool) (at : ℕ) → TimingConn → TimingConn
unfolding informational
write p n failed at c = record c {
  first_write_at =
      if ltb 0 n && not (informational p) && (c.first_write_at == 0) then at else c.first_write_at;
  write_failed = failed || c.write_failed;
}

-- `StateActive`: a request begins.
unfoldable pub activate : ℕ → TimingConn → TimingConn
activate now c = record c {
  start =
      if not (c.accepted_at == 0)
      then c.accepted_at
      else if not (c.read_at == 0)
      then c.read_at
      else now;
  start_source =
      if not (c.accepted_at == 0)
      then "connection_accepted"
      else if not (c.read_at == 0)
      then "request_received"
      else "headers_received";
  accepted_at = 0;
  read_at = 0;
  idle = false;
  write_failed = false;
  first_write_at = 0;
}

abbrev is_idle : ConnState → Bool
is_idle state_idle = true
is_idle state_closed = false
is_idle state_hijacked = false

abbrev is_hijacked : ConnState → Bool
is_hijacked state_idle = false
is_hijacked state_closed = false
is_hijacked state_hijacked = true

abbrev report : Option ℕ → ConnState → ℕ → TimingConn → List Report
report none state now c = []
report (some request) state now c =
    record {
      request = request;
      at = now;
      first_write = c.first_write_at;
      failed = c.write_failed || is_hijacked state;
    }
    ∷ []

-- The other states: the request's response has been flushed, or the connection is gone.
unfoldable pub leave : ConnState → ℕ → TimingConn → TimingConn
leave state now c = record c {
  finish = none;
  idle = is_idle state;
  read_at = 0;
  reports = c.reports ++ report c.finish state now c;
}

-- The handler takes the start of its request and leaves its callback.
unfoldable pub request_start : TimingConn → ℕ → ℕ × String × Bool
request_start c now =
    if not (c.start == 0) then (c.start, c.start_source, true) else (now, "handler_started", false)

unfoldable pub register : ℕ → TimingConn → TimingConn
register request c = record c { finish = some request }
