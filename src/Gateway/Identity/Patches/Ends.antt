-- ===== src/Gateway/Identity/Patches/Ends.antt =====
-- internal/gateway/identity_json_stream.go: the scan of a body comes to its end, whatever bytes it
-- holds and however it is nested.
use cliproxy_portal.Common.{ℕ, ◌≤◌, ◌≡◌, refl, subst, Bool, true, false, ◌&&◌, ◌||◌, List, arith, ◌==◌, if◌then◌else◌, length, codes, same}
use cliproxy_portal.Gateway.Identity.{out_of_fuel, invalid, end_of_file, unexpected_end, bad_text, read_failed, no_file, Own, Result, ok, failed, ◌>>=◌}
use cliproxy_portal.Gateway.Identity.Scanner.{
  Scanner, Scan, next_byte, whitespace, string, max_depth, object, metadata,
}
use cliproxy_portal.Gateway.Identity.Scanner.Moves.{
  IsAt, Fine, Anything, Fine-bind, Fine-if, whitespace-Fine,
}
use cliproxy_portal.Gateway.Identity.Scanner.Values.{metadata-Fine}
use cliproxy_portal.Gateway.Identity.Fields.{
  append_candidate, skipped, content, process_candidates, messages,
}
use cliproxy_portal.Gateway.Identity.Text.{Tables}
use cliproxy_portal.Gateway.Identity.Text.Halting.{MatchesSome}
use cliproxy_portal.Gateway.Identity.Fields.Forward.{
  first-Fine, answer-Fine, skipped-Fine, FineOn, object-FineOn, candidate-Fine, content-Fine,
  process-Fine, messages-Fine,
}
use cliproxy_portal.Gateway.Identity.Patches.{
  Body, Plan, no_body, body_model, parts_field, then_process, body_text, body_messages, body_system,
  body_parts, body_field, has_prefix, has_suffix, scan_body, new_scanner, scan_identity,
}

parts_field-Fine : FineOn parts_field
unfolding parts_field
parts_field-Fine key seen s h low =
    Fine-if Anything s (same key (codes "parts")) _ _
      (first-Fine Anything s seen _ (answer-Fine Anything s (content s) _ (content-Fine s h low)))
      (skipped-Fine seen s h low)

-- A chain that fails by an error that is its own.
abbrev Owns {ℓ} : {A : Type ℓ} → Bool → Result A → Type 0
Owns broken (ok a) = Unit {0}
Owns broken (failed e) = Own broken e

Owns-if {ℓ} :
    {A : Type ℓ} (broken test : Bool) (r q : Result A)
    → (test ≡ true → Owns broken r)
    → Owns broken q
    → Owns broken (if test then r else q)
Owns-if broken true r q h k = h refl
Owns-if broken false r q h k = k

Owns-Fine {ℓ κ} :
    {A : Type ℓ} {B : Type κ} (P : A → Scanner → Type 0) (s : Scanner) (r : Result (A × Scanner))
    (f : A × Scanner → Result B)
    → Fine P s r
    → ((a : A) (t : Scanner) → IsAt t → Owns t.broken (f (a, t)))
    → Owns s.broken (r >>= f)
Owns-Fine P s (failed e) f h later = h
Owns-Fine P s (ok (a, t)) f h later =
    subst (λ (b : Bool). Owns b (f (a, t))) h.0.broken_eq (later a t h.0.there)

module _ (t : Tables) (some_of : MatchesSome t) where
  then_process-Fine :
      {A : Type 0} (b : Body) (field : Scan A) (s : Scanner)
      → Fine Anything s (field s)
      → Fine Anything s (then_process t b field s)
  then_process-Fine b field s f = Fine-bind Anything Anything s (field s) _ f (λ a u m p.
      answer-Fine Anything u (process_candidates t (length s.candidates) u) _
        (process-Fine t some_of (length s.candidates) u m.there))

  body_text-Fine :
      (b : Body) (s : Scanner) → IsAt s → s.depth ≤ max_depth → Fine Anything s (body_text t b s)
  unfolding body_text
  body_text-Fine b s h low = first-Fine Anything s b.has_instructions _ (
      Fine-if Anything s (next_byte s == 34) _ _
        (then_process-Fine b (λ u. string u >>= λ (span, v). append_candidate span v) s
          (candidate-Fine s h))
        (skipped-Fine _ s h low))

  body_parts-Fine :
      (b : Body) (s : Scanner) → IsAt s → s.depth ≤ max_depth → Fine Anything s (body_parts t b s)
  unfolding body_parts
  body_parts-Fine b s h low = first-Fine Anything s b.has_instructions _ (
      Fine-if Anything s (next_byte s == b'{') _ _
        (then_process-Fine b (object parts_field false) s
          (object-FineOn parts_field false s parts_field-Fine h))
        (skipped-Fine _ s h low))

  body_messages-Fine :
      (b : Body) (s : Scanner)
      → IsAt s
      → s.depth ≤ max_depth
      → Fine Anything s (body_messages t b s)
  unfolding body_messages
  body_messages-Fine b s h low =
      first-Fine Anything s b.has_messages _
        (answer-Fine Anything s (messages t s) _ (messages-Fine t some_of s h low))

  body_system-Fine :
      (b : Body) (s : Scanner) → IsAt s → s.depth ≤ max_depth → Fine Anything s (body_system t b s)
  unfolding body_system
  body_system-Fine b s h low =
      first-Fine Anything s b.has_instructions _
        (then_process-Fine b content s (content-Fine s h low))

  body_model-Fine :
      (b : Body) (s : Scanner) → IsAt s → s.depth ≤ max_depth → Fine Anything s (body_model b s)
  unfolding body_model
  body_model-Fine b s h low =
      first-Fine Anything s b.has_model _
        (answer-Fine Anything s (metadata 2048 s) _ (metadata-Fine 2048 s h low))

  -- One case of the callback, whose other cases follow.
  case-Fine :
      (test : Bool) (s : Scanner) (r q : Result (Body × Scanner))
      → Fine Anything s q
      → Fine Anything s r
      → Fine Anything s (if test then r else q)
  case-Fine test s r q h k = Fine-if Anything s test r q k h

  body_field-Fine : (path : List ℕ) → FineOn (body_field t path)
  unfolding body_field
  body_field-Fine path key b s h low =
      case-Fine (same key (codes "model")) s (body_model b s) _
        (case-Fine (same key (codes "instructions") && has_suffix path (codes "/responses")) s
          (body_text t b s) _
          (case-Fine
            ((same key (codes "input") && has_suffix path (codes "/responses"))
              || (same key (codes "messages") && has_suffix path (codes "/chat/completions")))
            s (body_messages t b s) _
            (case-Fine (same key (codes "system") && has_suffix path (codes "/messages")) s
              (body_system t b s) _
              (case-Fine
                (same key (codes "systemInstruction") && has_prefix (codes "/v1beta/models/") path)
                s (body_parts t b s) (skipped b s) (skipped-Fine b s h low)
                (body_parts-Fine b s h low))
              (body_system-Fine b s h low))
            (body_messages-Fine b s h low))
          (body_text-Fine b s h low))
        (body_model-Fine b s h low)

  scan_body-Owns : (path : List ℕ) (s : Scanner) → IsAt s → Owns s.broken (scan_body t path s)
  unfolding scan_body
  scan_body-Owns path s h =
      Owns-Fine Anything s (object (body_field t path) no_body s) _
        (object-FineOn (body_field t path) no_body s (body_field-Fine path) h)
        (λ b u k. Owns-Fine Anything u (whitespace u) _ (whitespace-Fine u k) (λ x v j.
          Owns-if v.broken (length v.rest == 0) _ (failed invalid)
            (λ e. Owns-if v.broken v.broken (failed read_failed) (ok _) (λ q. q) tt) tt))

-- What an end of the scan says of its surroundings.
abbrev pub Ended : (created broken : Bool) → Result Plan → Type 0
Ended created broken (ok plan) = created ≡ true
Ended created broken (failed end_of_file) = created ≡ true
Ended created broken (failed invalid) = created ≡ true
Ended created broken (failed read_failed) = broken ≡ true
Ended created broken (failed unexpected_end) = created ≡ true
Ended created broken (failed bad_text) = created ≡ true
Ended created broken (failed no_file) = created ≡ false
Ended created broken (failed out_of_fuel) = ⊥

Owns-Ended : (broken : Bool) (r : Result Plan) → Owns broken r → Ended true broken r
Owns-Ended broken (ok plan) h = refl
Owns-Ended broken (failed end_of_file) h = refl
Owns-Ended broken (failed invalid) h = refl
Owns-Ended broken (failed read_failed) h = h
Owns-Ended broken (failed unexpected_end) h = refl
Owns-Ended broken (failed bad_text) h = refl
Owns-Ended broken (failed no_file) h = absurd h
Owns-Ended broken (failed out_of_fuel) h = h

-- If the regular expression of the qualifier never matches an empty text, `scanIdentityJSON` comes to
-- its end whatever bytes the file holds: the fuel of the model's loops is always enough. It gives a
-- plan, or refuses the input, or fails since a read did, or since one of its two files could not be
-- created; the last exactly then.
pub scan_identity-Ended :
    (t : Tables) (first second : Bool) (file : List ℕ) (broken : Bool) (path : List ℕ)
    → MatchesSome t
    → Ended (first && second) broken (scan_identity t first second file broken path)
unfolding scan_identity
scan_identity-Ended t first second file broken path some_of = go (first && second)
  where
    go :
        (created : Bool)
        → Ended created broken
            (if created then scan_body t path (new_scanner file broken) else failed no_file)
    go false = refl
    go true = Owns-Ended broken _ (
        scan_body-Owns t some_of path (new_scanner file broken)
          record { rest_eq = refl; offset_low = omega arith })
