-- ===== src/Gateway/Identity/Fields/Forward.antt =====
-- internal/gateway/identity_json_stream.go: the fields that hold instructions are read to their end,
-- and their candidates are strings in the order of the file.
use cliproxy_portal.Common.{ℕ, ◌≤◌, refl, sym, Bool, true, false, List, [], ◌∷◌, ◌++◌, append-nil, arith, ◌==◌, length, drop, codes, same}
use cliproxy_portal.Gateway.Identity.{Span, Own-any, Result, ok, failed, ◌>>=◌}
use cliproxy_portal.Gateway.Identity.Scanner.{
  Scanner, Scan, Field, next_byte, peek, string, max_depth, object, array, skip, metadata,
}
use cliproxy_portal.Gateway.Identity.Scanner.Moves.{
  IsAt, stay, Fine, Anything, Fine-bind, Fine-if, peek-Fine, string-Fine, IsSpan,
}
use cliproxy_portal.Gateway.Identity.Scanner.Values.{
  object-Fine, array-Fine, skip-Fine, metadata-Fine,
}
use cliproxy_portal.Gateway.Identity.Fields.{
  append_candidate, first_time, skipped, Part, is_text, part_type, part_text, part_field,
  content_part, content_at, content, scan_candidates, process_candidates, message_role,
  message_type, message_content, message_field, is_instruction, message, messages,
}
use cliproxy_portal.Gateway.Identity.Text.{Tables, scan_text}
use cliproxy_portal.Gateway.Identity.Text.Halting.{Halts, Halts-bind, MatchesSome, scan_text-Halts}

pub first-Fine {ℓ} :
    {A : Type ℓ} (P : A → Scanner → Type 0) (s : Scanner) (seen : Bool)
    (f : Unit {0} → Result (A × Scanner))
    → Fine P s (f tt)
    → Fine P s (first_time seen >>= f)
first-Fine P s true f h = tt
first-Fine P s false f h = h

-- A step that only answers otherwise.
pub answer-Fine {ℓ κ} :
    {A : Type ℓ} {B : Type κ} (P : A → Scanner → Type 0) (s : Scanner) (r : Result (A × Scanner))
    (g : A → B)
    → Fine P s r
    → Fine Anything s (r >>= λ (a, t). ok (g a, t))
answer-Fine P s (failed e) g h = h
answer-Fine P s (ok (a, t)) g h = (h.0, tt)

pub skipped-Fine :
    {A : Type 0} (a : A) (s : Scanner)
    → IsAt s
    → s.depth ≤ max_depth
    → Fine Anything s (skipped a s)
skipped-Fine a s h low = answer-Fine Anything s (skip s) (λ u. a) (skip-Fine s h low)

-- A callback that is fine on every level that is allowed.
abbrev pub FineOn : {A : Type 0} → Field A → Type 0
FineOn {A} field =
    (key : List ℕ) (a : A) (t : Scanner)
    → IsAt t
    → t.depth ≤ max_depth
    → Fine Anything t (field key a t)

pub object-FineOn :
    {A : Type 0} (field : Field A) (a : A) (s : Scanner)
    → FineOn field
    → IsAt s
    → Fine Anything s (object field a s)
object-FineOn field a s f h =
    object-Fine field a s h (λ low key b t k e. f key b t k (omega (arith, low, e)))

array-FineOn :
    (value : Scan (Unit {0})) (s : Scanner)
    → ((t : Scanner) → IsAt t → t.depth ≤ max_depth → Fine Anything t (value t))
    → IsAt s
    → Fine Anything s (array value s)
array-FineOn value s f h = array-Fine value s h (λ low t k e. f t k (omega (arith, low, e)))

-- A candidate is appended.
pub append-Fine : (s : Scanner) (span : Span) → IsAt s → Fine Anything s (append_candidate span s)
append-Fine s span h = (
  record {
    there = record { rest_eq = h.rest_eq; offset_low = h.offset_low };
    file_eq = refl;
    broken_eq = refl;
    depth_eq = refl;
    forward = omega arith;
    added = span ∷ [];
    candidates_eq = refl;
  },
  tt,
)

pub candidate-Fine :
    (s : Scanner) → IsAt s → Fine Anything s (string s >>= λ (span, t). append_candidate span t)
candidate-Fine s h =
    Fine-bind (IsSpan s) Anything s (string s) _ (string-Fine s h)
      (λ span t m p. append-Fine t span m.there)

part_type-Fine :
    (p : Part) (s : Scanner) → IsAt s → s.depth ≤ max_depth → Fine Anything s (part_type p s)
unfolding part_type
part_type-Fine p s h low =
    first-Fine Anything s p.has_type _
      (answer-Fine Anything s (metadata 128 s) _ (metadata-Fine 128 s h low))

part_text-Fine :
    (p : Part) (s : Scanner) → IsAt s → s.depth ≤ max_depth → Fine Anything s (part_text p s)
unfolding part_text
part_text-Fine p s h low = first-Fine Anything s p.has_text _ (
    Fine-if Anything s (next_byte s == 34) _ _
      (answer-Fine (IsSpan s) s (string s) _ (string-Fine s h)) (skipped-Fine _ s h low))

part_field-Fine : FineOn part_field
unfolding part_field
part_field-Fine key p s h low =
    Fine-if Anything s (same key (codes "type")) _ _ (part_type-Fine p s h low) (
      Fine-if Anything s (same key (codes "text")) _ _ (part_text-Fine p s h low)
        (skipped-Fine p s h low))

content_part-Fine : (s : Scanner) → IsAt s → s.depth ≤ max_depth → Fine Anything s (content_part s)
unfolding content_part
content_part-Fine s h low =
    Fine-if Anything s (next_byte s == b'{') _ _
      (Fine-bind Anything Anything s (object part_field _ s) _
        (object-FineOn part_field _ s part_field-Fine h)
        (λ p t m q.
          Fine-if Anything t (is_text p) (append_candidate p.span t) (ok (tt, t))
            (append-Fine t p.span m.there) (stay t m.there, tt)))
      (skip-Fine s h low)

-- `content`: a text, or a list of parts.
pub content-Fine : (s : Scanner) → IsAt s → s.depth ≤ max_depth → Fine Anything s (content s)
unfolding content content_at
content-Fine s h low = Fine-bind Anything Anything s (peek s) _ (peek-Fine s h) (λ b t m p.
    Fine-if Anything t (b == 34) _ _ (candidate-Fine t m.there) (
      Fine-if Anything t (b == b'[') _ _ (array-FineOn content_part t content_part-Fine m.there)
        (skip-Fine t m.there (omega (arith, low, m.depth_eq)))))

patched-Fine :
    (s : Scanner)
    → IsAt s
    → (r : Result (List Span)) → Halts r
    → Fine {A = Unit {0}} Anything s
        (r >>= λ (patches : List Span). ok (tt, record s { patches = patches }))
patched-Fine s h (failed e) k = Own-any s.broken e k
patched-Fine s h (ok patches) k = (
  record {
    there = record { rest_eq = h.rest_eq; offset_low = h.offset_low };
    file_eq = refl;
    broken_eq = refl;
    depth_eq = refl;
    forward = omega arith;
    added = [];
    candidates_eq = sym (append-nil s.candidates);
  },
  tt,
)

module _ (t : Tables) (some_of : MatchesSome t) where
  scan_candidates-Halts :
      (file : List ℕ) (spans patches : List Span) → Halts (scan_candidates t file spans patches)
  unfolding scan_candidates
  scan_candidates-Halts file [] patches = tt
  scan_candidates-Halts file (span ∷ spans) patches =
      Halts-bind (scan_text t _) _ (scan_text-Halts t _ some_of)
        (λ found e. scan_candidates-Halts file spans (patches ++ found))

  pub process-Fine : (n : ℕ) (s : Scanner) → IsAt s → Fine Anything s (process_candidates t n s)
  unfolding process_candidates
  process-Fine n s h =
      patched-Fine s h (scan_candidates t s.file (drop n s.candidates) s.patches)
        (scan_candidates-Halts s.file _ s.patches)

  message_field-Fine : FineOn (message_field t)
  unfolding message_field message_role message_type message_content
  message_field-Fine key m s h low =
      Fine-if Anything s (same key (codes "role")) _ _
        (first-Fine Anything s m.has_role _
          (answer-Fine Anything s (metadata 128 s) _ (metadata-Fine 128 s h low)))
        (Fine-if Anything s (same key (codes "type")) _ _
          (first-Fine Anything s m.has_type _
            (answer-Fine Anything s (metadata 128 s) _ (metadata-Fine 128 s h low)))
          (Fine-if Anything s (same key (codes "content")) _ _
            (first-Fine Anything s m.has_content _
              (answer-Fine Anything s (content s) _ (content-Fine s h low)))
            (skipped-Fine m s h low)))

  message-Fine : (s : Scanner) → IsAt s → s.depth ≤ max_depth → Fine Anything s (message t s)
  unfolding message
  message-Fine s h low =
      Fine-if Anything s (next_byte s == b'{') _ _
        (Fine-bind Anything Anything s (object (message_field t) _ s) _
          (object-FineOn (message_field t) _ s message_field-Fine h)
          (λ m u k q.
            Fine-if Anything u (is_instruction m) _ (ok (tt, u))
              (process-Fine (length s.candidates) u k.there) (stay u k.there, tt)))
        (skip-Fine s h low)

  -- `messages`: a list of messages, each of which may instruct.
  pub messages-Fine : (s : Scanner) → IsAt s → s.depth ≤ max_depth → Fine Anything s (messages t s)
  unfolding messages
  messages-Fine s h low =
      Fine-if Anything s (next_byte s == b'[') _ _ (array-FineOn (message t) s message-Fine h)
        (skip-Fine s h low)
