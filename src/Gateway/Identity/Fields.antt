-- ===== src/Gateway/Identity/Fields.antt =====
-- internal/gateway/identity_json_stream.go: which fields of a body are instructions, and the plan
-- of removals that `scanIdentityJSON` makes. A local variable that a callback sets is a part of the
-- state that the loop carries.
pub mod Forward
use cliproxy_portal.Common.{ℕ, ◌+◌, ◌-◌, Bool, true, false, not, ◌&&◌, ◌||◌, List, [], ◌∷◌, ◌++◌, ltb, ◌==◌, if◌then◌else◌,
  length, drop, codes, same}
use cliproxy_portal.Gateway.Identity.{Span, invalid, Result, ok, failed, ◌>>=◌}
use cliproxy_portal.Gateway.Identity.Text.{Tables, scan_text}
use cliproxy_portal.Gateway.Identity.Scanner.{
  Scan, Field, next_byte, peek, string, object, array, skip, metadata,
}

-- `identityFieldSeen`: a field that comes twice is ambiguous.
abbrev pub first_time : Bool → Result (Unit {0})
first_time true = failed invalid
first_time false = ok tt

abbrev pub append_candidate : Span → Scan (Unit {0})
append_candidate span s = ok (tt, record s { candidates = s.candidates ++ span ∷ [] })

-- Any other field is skipped.
abbrev pub skipped : {A : Type 0} → A → Scan A
skipped a s = skip s >>= λ (u, t). ok (a, t)

-- What a callback of a part of the content leaves in `kind`, `span` and `seen`.
pub record Part : Type 0 where
  pub kind : List ℕ
  pub span : Span
  pub has_type : Bool
  pub has_text : Bool

abbrev no_part : Part
no_part = record {
  kind = [];
  span = record { start = 0; end = 0 };
  has_type = false;
  has_text = false;
}

unfoldable part_type : Part → Scan Part
part_type p s = do
  _ ← first_time p.has_type
  (kind, s) ← metadata 128 s
  ok (record p { kind = kind; has_type = true }, s)

unfoldable part_string : Part → Scan Part
part_string p s = do (span, s) ← string s; ok (record p { span = span; has_text = true }, s)

unfoldable part_text : Part → Scan Part
unfolding part_string
part_text p s = do
  _ ← first_time p.has_text
  if next_byte s == 34 then part_string p s else skipped (record p { has_text = true }) s

unfoldable part_field : Field Part
unfolding part_type part_text
part_field key p s =
    if same key (codes "type")
    then part_type p s
    else if same key (codes "text")
    then part_text p s
    else skipped p s

abbrev pub is_text : Part → Bool
is_text p =
    ltb p.span.start p.span.end
    && (not p.has_type || same p.kind (codes "text") || same p.kind (codes "input_text"))

unfoldable content_part : Scan (Unit {0})
unfolding part_field
content_part s =
    if next_byte s == b'{'
    then (object part_field no_part s >>= λ (p, t).
        if is_text p then append_candidate p.span t else ok (tt, t))
    else skip s

unfoldable content_at : ℕ → Scan (Unit {0})
unfolding content_part
content_at b s =
    if b == 34
    then (string s >>= λ (span, t). append_candidate span t)
    else if b == b'['
    then array content_part s
    else skip s

unfoldable pub content : Scan (Unit {0})
unfolding content_at
content s = do (b, s) ← peek s; content_at b s

-- What a callback of a message leaves in `role`, `kind` and `seen`.
pub record Message : Type 0 where
  pub role : List ℕ
  pub kind : List ℕ
  pub has_role : Bool
  pub has_type : Bool
  pub has_content : Bool

abbrev no_message : Message
no_message = record {
  role = [];
  kind = [];
  has_role = false;
  has_type = false;
  has_content = false;
}

-- The messages that instruct: a system's or a developer's.
abbrev pub is_instruction : Message → Bool
is_instruction m =
    (same m.role (codes "system") || same m.role (codes "developer"))
    && (not m.has_type || same m.kind (codes "message"))

module _ (t : Tables) where
  -- The removals within the candidates, in their order.
  unfoldable pub scan_candidates : List ℕ → List Span → List Span → Result (List Span)
  scan_candidates file [] patches = ok patches
  scan_candidates file (span ∷ spans) patches = do
    found ← scan_text t record {
      raw = file;
      span = record { start = span.start + 1; end = span.end - 1 };
      escaped = true;
    }
    scan_candidates file spans (patches ++ found)

  -- The candidates behind the first n.
  unfoldable pub process_candidates : ℕ → Scan (Unit {0})
  unfolding scan_candidates
  process_candidates n s = do
    patches ← scan_candidates s.file (drop n s.candidates) s.patches
    ok (tt, record s { patches = patches })

  unfoldable message_role : Message → Scan Message
  message_role m s = do
    _ ← first_time m.has_role
    (role, s) ← metadata 128 s
    ok (record m { role = role; has_role = true }, s)

  unfoldable message_type : Message → Scan Message
  message_type m s = do
    _ ← first_time m.has_type
    (kind, s) ← metadata 128 s
    ok (record m { kind = kind; has_type = true }, s)

  unfoldable message_content : Message → Scan Message
  message_content m s = do
    _ ← first_time m.has_content
    (_, s) ← content s
    ok (record m { has_content = true }, s)

  unfoldable message_field : Field Message
  unfolding message_role message_type message_content
  message_field key m s =
      if same key (codes "role")
      then message_role m s
      else if same key (codes "type")
      then message_type m s
      else if same key (codes "content")
      then message_content m s
      else skipped m s

  unfoldable message : Scan (Unit {0})
  unfolding message_field process_candidates
  message s =
      if next_byte s == b'{'
      then (object message_field no_message s >>= λ (m, u).
          if is_instruction m then process_candidates (length s.candidates) u else ok (tt, u))
      else skip s

  unfoldable pub messages : Scan (Unit {0})
  unfolding message
  messages s = if next_byte s == b'[' then array message s else skip s
