-- ===== src/Gateway/Identity/Patches.antt =====
-- internal/gateway/identity_json_stream.go: `scanIdentityJSON` from the path of the request on, and
-- `applyIdentityPatches`.
pub mod Keeps
pub mod Ends
use cliproxy_portal.Common.{ℕ, ◌+◌, ◌-◌, Bool, true, false, ◌&&◌, ◌||◌, List, [], ◌∷◌, ◌++◌, ltb, leb, ◌==◌, if◌then◌else◌,
  length, drop, codes, same}
use cliproxy_portal.Gateway.Identity.{Span, read_failed, invalid, no_file, Result, ok, failed, ◌>>=◌}
use cliproxy_portal.Gateway.Identity.Text.{Tables, section}
use cliproxy_portal.Gateway.Identity.Scanner.{
  Scanner, Scan, Field, next_byte, whitespace, string, object, metadata,
}
use cliproxy_portal.Gateway.Identity.Fields.{
  append_candidate, first_time, skipped, content, messages, process_candidates,
}

abbrev pub has_prefix : List ℕ → List ℕ → Bool
has_prefix prefix [] = length prefix == 0
has_prefix [] (b ∷ path) = true
has_prefix (a ∷ prefix) (b ∷ path) = (a == b) && has_prefix prefix path

abbrev pub has_suffix : List ℕ → List ℕ → Bool
has_suffix path suffix =
    leb (length suffix) (length path) && same (drop (length path - length suffix) path) suffix

-- What the callback of the body leaves in `model` and `seen`.
pub record Body : Type 0 where
  pub model : List ℕ
  pub has_model : Bool
  pub has_instructions : Bool
  pub has_messages : Bool

abbrev pub no_body : Body
no_body = record { model = []; has_model = false; has_instructions = false; has_messages = false }

unfoldable body_model : Body → Scan Body
body_model b s = do
  _ ← first_time b.has_model
  (model, s) ← metadata 2048 s
  ok (record b { model = model; has_model = true }, s)

unfoldable parts_field : Field Bool
parts_field key seen s =
    if same key (codes "parts")
    then (first_time seen >>= λ _. content s >>= λ (u, t). ok (true, t))
    else skipped seen s

pub record Plan : Type 0 where
  pub model : List ℕ
  pub patches : List Span

-- What is before the first colon.
abbrev before_colon : List ℕ → List ℕ
before_colon [] = []
before_colon (c ∷ path) = let rest = before_colon path in if c == b':' then [] else c ∷ rest

abbrev model_of : List ℕ → List ℕ → List ℕ
model_of path model =
    if same model [] && has_prefix (codes "/v1beta/models/") path
    then before_colon (drop (length (codes "/v1beta/models/")) path)
    else model

-- Nothing but white space may follow the body.
abbrev pub at_end : Plan → Scanner → Result Plan
at_end plan s =
    if length s.rest == 0
    then (if s.broken then failed read_failed else ok plan)
    else failed invalid

-- The scanner of a file; two files for its spans are created first.
abbrev pub new_scanner : List ℕ → Bool → Scanner
new_scanner file broken = record {
  file = file;
  rest = file;
  offset = 0;
  broken = broken;
  depth = 0;
  candidates = [];
  patches = [];
}

module _ (tables : Tables) where
  -- The candidates that a field adds are processed at its end.
  abbrev pub then_process : {A : Type 0} → Body → Scan A → Scan Body
  then_process b field s = do
    (_, u) ← field s
    (_, v) ← process_candidates tables (length s.candidates) u
    ok (record b { has_instructions = true }, v)

  unfoldable body_text : Body → Scan Body
  body_text b s = do
    _ ← first_time b.has_instructions
    if next_byte s == 34
        then then_process b (λ s. string s >>= λ (span, u). append_candidate span u) s
        else skipped (record b { has_instructions = true }) s

  unfoldable body_messages : Body → Scan Body
  body_messages b s = do
    _ ← first_time b.has_messages
    (_, s) ← messages tables s
    ok (record b { has_messages = true }, s)

  unfoldable body_system : Body → Scan Body
  body_system b s = do _ ← first_time b.has_instructions; then_process b content s

  unfoldable body_parts : Body → Scan Body
  unfolding parts_field
  body_parts b s = do
    _ ← first_time b.has_instructions
    if next_byte s == b'{'
        then then_process b (object parts_field false) s
        else skipped (record b { has_instructions = true }) s

  -- The cases of the callback, in their order.
  unfoldable body_field : List ℕ → Field Body
  unfolding body_model body_text body_messages body_system body_parts
  body_field path key b s =
      if same key (codes "model")
      then body_model b s
      else if same key (codes "instructions") && has_suffix path (codes "/responses")
      then body_text b s
      else if (same key (codes "input") && has_suffix path (codes "/responses"))
          || (same key (codes "messages") && has_suffix path (codes "/chat/completions"))
      then body_messages b s
      else if same key (codes "system") && has_suffix path (codes "/messages")
      then body_system b s
      else if same key (codes "systemInstruction") && has_prefix (codes "/v1beta/models/") path
      then body_parts b s
      else skipped b s

  unfoldable pub scan_body : List ℕ → Scanner → Result Plan
  unfolding body_field
  scan_body path s = do
    (b, s) ← object (body_field path) no_body s
    (_, s) ← whitespace s
    at_end record { model = model_of path b.model; patches = s.patches } s

  unfoldable pub scan_identity : Bool → Bool → List ℕ → Bool → List ℕ → Result Plan
  unfolding scan_body
  scan_identity first second file broken path =
      if first && second then scan_body path (new_scanner file broken) else failed no_file

-- The loop over the patches: the bytes between the cursor and a patch are kept, the patch's are not.
unfoldable pub apply_from : List ℕ → ℕ → List Span → Result (List ℕ × ℕ)
apply_from source cursor [] = ok (section source cursor (length source), 0)
apply_from source cursor (span ∷ patches) =
    let rest = do
      (kept, removed) ← apply_from source span.end patches
      ok (section source cursor span.start ++ kept, removed + (span.end - span.start))
    in if ltb span.start cursor || ltb span.end span.start || ltb (length source) span.end
      then failed invalid
      else rest

-- The new bytes and their number.
unfoldable pub apply_patches : Bool → List ℕ → List Span → Result (List ℕ × ℕ)
unfolding apply_from
apply_patches created source patches =
    if created
    then (apply_from source 0 patches >>= λ (kept, removed). ok (kept, length source - removed))
    else failed no_file
