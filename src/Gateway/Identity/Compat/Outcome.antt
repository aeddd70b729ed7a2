-- ===== src/Gateway/Identity/Compat/Outcome.antt =====
-- internal/gateway/codex_identity.go: when a body is rewritten, with what, and when the request
-- fails.
use cliproxy_portal.Common.{
  ℕ, ◌≤◌, ◌≡◌, refl, ap, ◌≢◌, ◌↔◌, inl, inr, Bool, true, false, not, ◌||◌, Option, none, some, List,
  [], arith, ◌==◌, if◌then◌else◌, Bool-cases, length,
}
use cliproxy_portal.Gateway.Identity.{
  Span, failed-ne-ok, ScanError, end_of_file, unexpected_end, bad_text, read_failed, invalid,
  no_file, out_of_fuel, Result, ok, failed, failed-ne-ok,
}
use cliproxy_portal.Gateway.Identity.Text.{Tables}
use cliproxy_portal.Gateway.Identity.Patches.{Plan, scan_identity, apply_patches}
use cliproxy_portal.Gateway.Identity.Patches.Keeps.{IsChain, keep_from, apply_patches_iff}
use cliproxy_portal.Gateway.Body.{Decoders, reverse_onto}
use cliproxy_portal.Gateway.Identity.Compat.{
  dialogue, encodings_of, copy_all, decode_spool, all_supported, Surroundings, Rewriting, untouched,
  original, failing, rewritten, scan_failure, rewrite_with, if_routed, rewrite_plan,
  rewrite_decoded, rewrite_wire, apply_identity,
}

abbrev pub scan_of : Tables → Surroundings → List ℕ → Result Plan
scan_of t w decoded = scan_identity t w.candidates_created w.patches_created decoded w.broken w.path

-- A request of a dialogue, where a channel has the removal enabled, with encodings that are known.
abbrev pub is_eligible : Surroundings → Bool
is_eligible w = not (not (dialogue w) || not w.enabled || not (all_supported (encodings_of w)))

-- Why a body is replaced by other bytes.
pub record Replaces (t : Tables) (d : Decoders) (w : Surroundings) (bytes : List ℕ) (size : ℕ)
    : Type 0 where
  pub wire : List ℕ
  pub decoded : List ℕ
  pub plan : Plan
  pub eligible : is_eligible w ≡ true
  pub created : w.wire_created ≡ true
  pub wire_eq : copy_all w.body ≡ some wire
  pub decoded_eq : decode_spool d (reverse_onto (encodings_of w) []) w.files wire ≡ some decoded
  pub plan_eq : scan_of t w decoded ≡ ok plan
  pub found : 1 ≤ length plan.patches
  pub routed : w.should_remove plan.model ≡ some true
  pub output : w.output_created ≡ true
  pub chain : IsChain 0 (length decoded) plan.patches
  pub bytes_eq : bytes ≡ keep_from 0 plan.patches decoded
  pub size_eq : size ≡ length bytes

found-false : (n : ℕ) → 1 ≤ n → (n == 0) ≡ false
found-false n h = ground (arith, h)

not-false : (b : Bool) → not b ≡ true → b ≡ false
not-false true h = cc
not-false false h = refl

-- The parts of it that the output's file decides.
record Output (created : Bool) (decoded : List ℕ) (patches : List Span) (bytes : List ℕ) (size : ℕ)
    : Type 0 where
  output : created ≡ true
  chain : IsChain 0 (length decoded) patches
  bytes_eq : bytes ≡ keep_from 0 patches decoded
  size_eq : size ≡ length bytes

apply_patches-Output :
    (created : Bool) (decoded : List ℕ) (patches : List Span) (bytes : List ℕ) (size : ℕ)
    → apply_patches created decoded patches ≡ ok (bytes, size)
    → Output created decoded patches bytes size
unfolding apply_patches
apply_patches-Output false decoded patches bytes size h = failed-ne-ok h
apply_patches-Output true decoded patches bytes size h =
    let (chain, kept, counted) = (apply_patches_iff decoded patches bytes size).0 h in
    record { output = refl; chain = chain; bytes_eq = kept; size_eq = counted }

with_output :
    (r : Result (List ℕ × ℕ)) (bytes : List ℕ) (size : ℕ)
    → rewrite_with r ≡ rewritten bytes size
    → r ≡ ok (bytes, size)
with_output (failed e) bytes size h = cc
with_output (ok (kept, count)) bytes size h = cc

if_routed-rewritten :
    (o : Option Bool) (r : Rewriting) (bytes : List ℕ) (size : ℕ)
    → if_routed o r ≡ rewritten bytes size
    → (o ≡ some true) × (r ≡ rewritten bytes size)
if_routed-rewritten none r bytes size h = cc
if_routed-rewritten (some false) r bytes size h = cc
if_routed-rewritten (some true) r bytes size h = (refl, h)

scan_failure-kept :
    (e : ScanError) (bytes : List ℕ) (size : ℕ) → scan_failure e ≢ rewritten bytes size
scan_failure-kept end_of_file bytes size h = cc
scan_failure-kept read_failed bytes size h = cc
scan_failure-kept invalid bytes size h = cc
scan_failure-kept no_file bytes size h = cc
scan_failure-kept unexpected_end bytes size h = cc
scan_failure-kept bad_text bytes size h = cc
scan_failure-kept out_of_fuel bytes size h = cc

-- The parts that a plan decides.
record Planned (w : Surroundings) (decoded : List ℕ) (r : Result Plan) (bytes : List ℕ) (size : ℕ)
    : Type 0 where
  plan : Plan
  plan_eq : r ≡ ok plan
  found : 1 ≤ length plan.patches
  routed : w.should_remove plan.model ≡ some true
  out : Output w.output_created decoded plan.patches bytes size

rewrite_plan-Planned :
    (w : Surroundings) (decoded : List ℕ) (r : Result Plan) (bytes : List ℕ) (size : ℕ)
    → rewrite_plan w decoded r ≡ rewritten bytes size
    → Planned w decoded r bytes size
unfolding rewrite_plan
rewrite_plan-Planned w decoded (failed e) bytes size h = absurd (scan_failure-kept e bytes size h)
rewrite_plan-Planned w decoded (ok plan) bytes size h =
    elim (Bool-cases (length plan.patches == 0)) [
      | inl empty ↦ (let bad : original ≡ rewritten bytes size = rw empty at h in cc)
      | inr more ↦
          let (routed, later) =
            if_routed-rewritten (w.should_remove plan.model) _ bytes size (rw more at h) in
          record {
            plan = plan;
            plan_eq = refl;
            found = ground (arith, more);
            routed = routed;
            out =
                apply_patches-Output w.output_created decoded plan.patches bytes size
                  (with_output _ bytes size later);
          }
    ]

-- A body is replaced exactly where the request is eligible, its body decodes to a JSON document whose
-- instructions hold such a sentence, and the document's model is routed to a channel that has the
-- removal enabled; what goes upstream is then the decoded body without the places that the plan names,
-- none of which overlap, and the size that is announced is its own.
pub apply_identity-rewritten :
    (t : Tables) (d : Decoders) (w : Surroundings) (bytes : List ℕ) (size : ℕ)
    → (apply_identity t d w ≡ rewritten bytes size) ↔ Replaces t d w bytes size
unfolding apply_identity rewrite_wire rewrite_decoded encodings_of
apply_identity-rewritten t d w bytes size = (sound, complete)
  where
    decoded_of :
        (wire : List ℕ) (o : Option (List ℕ))
        → rewrite_decoded t w o ≡ rewritten bytes size
        → (decoded : List ℕ) × (o ≡ some decoded)
          × Planned w decoded (scan_of t w decoded) bytes size
    decoded_of wire none h = elim (Bool-cases w.cancelled) [
      | inl c ↦ (let bad : failing ≡ rewritten bytes size = rw c at h in cc)
      | inr c ↦ (let bad : original ≡ rewritten bytes size = rw c at h in cc)
    ]
    decoded_of wire (some decoded) h =
        (decoded, refl, rewrite_plan-Planned w decoded (scan_of t w decoded) bytes size h)

    stored :
        (o : Option (List ℕ))
        → is_eligible w ≡ true
        → w.wire_created ≡ true
        → copy_all w.body ≡ o
        → rewrite_wire t d w o ≡ rewritten bytes size
        → Replaces t d w bytes size
    stored none e c q h = cc
    stored (some wire) e c q h =
        let (decoded, same, p) =
          decoded_of wire (decode_spool d (reverse_onto (encodings_of w) []) w.files wire) h in
        record {
          wire = wire;
          decoded = decoded;
          plan = p.plan;
          eligible = e;
          created = c;
          wire_eq = q;
          decoded_eq = same;
          plan_eq = p.plan_eq;
          found = p.found;
          routed = p.routed;
          output = p.out.output;
          chain = p.out.chain;
          bytes_eq = p.out.bytes_eq;
          size_eq = p.out.size_eq;
        }

    eligible_of :
        (skip created : Bool)
        → (if skip
            then untouched
            else if created
            then rewrite_wire t d w (copy_all w.body)
            else failing)
          ≡ rewritten bytes size
        → (skip ≡ false)
          × (created ≡ true)
          × (rewrite_wire t d w (copy_all w.body) ≡ rewritten bytes size)
    eligible_of true created h = cc
    eligible_of false false h = cc
    eligible_of false true h = (refl, refl, h)

    sound : apply_identity t d w ≡ rewritten bytes size → Replaces t d w bytes size
    sound h =
        let (e, c, later) = eligible_of _ w.wire_created h in
        stored (copy_all w.body) (ap not e) c refl later

    complete : Replaces t d w bytes size → apply_identity t d w ≡ rewritten bytes size
    complete r =
        let applied : apply_patches w.output_created r.decoded r.plan.patches ≡ ok (bytes, size) =
          rw r.output (
            (apply_patches_iff r.decoded r.plan.patches bytes size).1
              (r.chain, r.bytes_eq, r.size_eq)) in
        let planned : rewrite_plan w r.decoded (ok r.plan) ≡ rewritten bytes size =
          (let more : (length r.plan.patches == 0) ≡ false = found-false _ r.found in
            rw (more, r.routed, applied) refl) in
        let eligible : (not (dialogue w) || not w.enabled || not (all_supported (encodings_of w)))
            ≡ false =
          not-false _ r.eligible in
        rw (eligible, r.created, r.wire_eq, r.decoded_eq, r.plan_eq) planned
