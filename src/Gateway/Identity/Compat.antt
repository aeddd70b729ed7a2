-- ===== src/Gateway/Identity/Compat.antt =====
-- internal/gateway/codex_identity.go and identity_spool.go: when a request's body is rewritten. The
-- store, the routing of a model and the decoders are arguments; a file is the list of its bytes.
pub mod Outcome
pub mod Faults
use cliproxy_portal.Common.{ℕ, Bool, true, false, not, ◌&&◌, ◌||◌, Option, none, some, List, [], ◌∷◌, ◌==◌, if◌then◌else◌,
  length, codes}
use cliproxy_portal.Gateway.Identity.{ScanError, read_failed, no_file, Result, ok, failed, bad_text}
use cliproxy_portal.Gateway.Identity.Text.{Tables}
use cliproxy_portal.Gateway.Identity.Patches.{
  has_prefix, has_suffix, Plan, scan_identity, apply_patches,
}
use cliproxy_portal.Gateway.Body.{
  encodings, Source, Decoders, Encoding, identity, gzip, deflate, zstd, unknown, Opened, skipped,
  opened, open_layer, create, reverse_onto,
}

-- `identityCopy` of all that can be read.
abbrev copy_all : Source → Option (List ℕ)
copy_all s = if s.fails then none else some s.bytes

abbrev decoded_into : Bool → Option (List ℕ) → (List ℕ → Option (List ℕ)) → Option (List ℕ)
decoded_into false copy later = none
decoded_into true none later = none
decoded_into true (some bytes) later = later bytes

unfoldable decode_opened :
    Opened → List Bool → List ℕ → (List Bool → List ℕ → Option (List ℕ)) → Option (List ℕ)
decode_opened skipped files current later = later files current
decode_opened (opened s) files current later =
    decoded_into (create files).0 (copy_all s) (later (create files).1)
decode_opened _ files current later = none

-- `decodeIdentitySpool`, which knows no zstd and no limit.
unfoldable pub decode_spool : Decoders → List Encoding → List Bool → List ℕ → Option (List ℕ)
unfolding decode_opened open_layer
decode_spool d [] files current = some current
decode_spool d (zstd ∷ es) files current = none
decode_spool d (e ∷ es) files current =
    decode_opened (open_layer d e current) files current (decode_spool d es)

abbrev pub is_supported : Encoding → Bool
is_supported identity = true
is_supported gzip = true
is_supported deflate = true
is_supported zstd = false
is_supported unknown = false

abbrev pub all_supported : List Encoding → Bool
all_supported [] = true
all_supported (e ∷ es) = is_supported e && all_supported es

-- What the code reads of the request and of its surroundings: whether there is a body, whether it is a
-- POST, whether some channel has the removal enabled, the path, the encoding and the body, the answers
-- of the file system, whether the context is done, whether the decoded file can be read to its end,
-- and how a model is routed.
pub record Surroundings : Type 0 where
  pub has_body : Bool
  pub is_post : Bool
  pub enabled : Bool
  pub path : List ℕ
  pub encoding : List ℕ
  pub body : Source
  pub wire_created : Bool
  pub files : List Bool
  pub cancelled : Bool
  pub broken : Bool
  pub candidates_created : Bool
  pub patches_created : Bool
  pub output_created : Bool
  pub should_remove : List ℕ → Option Bool

unfoldable pub is_dialogue_path : Bool → List ℕ → Bool
is_dialogue_path is_post path =
    is_post
    && (has_suffix path (codes "/responses")
        || has_suffix path (codes "/chat/completions")
        || has_suffix path (codes "/messages")
        || (has_prefix (codes "/v1beta/models/") path
            && (has_suffix path (codes ":generateContent")
                || has_suffix path (codes ":streamGenerateContent"))))

unfoldable pub dialogue : Surroundings → Bool
unfolding is_dialogue_path
dialogue w = w.has_body && is_dialogue_path w.is_post w.path

-- The encodings that the header names.
unfoldable pub encodings_of : Surroundings → List Encoding
unfolding encodings
encodings_of w = encodings w.encoding

-- The body is left alone, comes again from its file, is replaced by other bytes, or the request
-- fails.
pub data Rewriting : Type 0 where
  untouched original failing : Rewriting
  rewritten : List ℕ → ℕ → Rewriting

-- An error of the scan that is the body's own leaves the body as it is.
abbrev pub scan_failure : ScanError → Rewriting
scan_failure read_failed = failing
scan_failure no_file = failing
scan_failure bad_text = failing
scan_failure e = original

abbrev pub rewrite_with : Result (List ℕ × ℕ) → Rewriting
rewrite_with (failed e) = failing
rewrite_with (ok (bytes, size)) = rewritten bytes size

abbrev pub if_routed : Option Bool → Rewriting → Rewriting
if_routed none r = original
if_routed (some allowed) r = if allowed then r else original

unfoldable rewrite_plan : Surroundings → List ℕ → Result Plan → Rewriting
unfolding apply_patches
rewrite_plan w decoded (failed e) = scan_failure e
rewrite_plan w decoded (ok plan) =
    if length plan.patches == 0
    then original
    else if_routed (w.should_remove plan.model)
        (rewrite_with (apply_patches w.output_created decoded plan.patches))

unfoldable rewrite_decoded : Tables → Surroundings → Option (List ℕ) → Rewriting
unfolding rewrite_plan scan_identity
rewrite_decoded t w none = if w.cancelled then failing else original
rewrite_decoded t w (some decoded) =
    rewrite_plan w decoded
      (scan_identity t w.candidates_created w.patches_created decoded w.broken w.path)

unfoldable rewrite_wire : Tables → Decoders → Surroundings → Option (List ℕ) → Rewriting
unfolding rewrite_decoded decode_spool
rewrite_wire t d w none = failing
rewrite_wire t d w (some wire) =
    rewrite_decoded t w (decode_spool d (reverse_onto (encodings_of w) []) w.files wire)

unfoldable pub apply_identity : Tables → Decoders → Surroundings → Rewriting
unfolding rewrite_wire
apply_identity t d w =
    if not (dialogue w) || not w.enabled || not (all_supported (encodings_of w))
    then untouched
    else if w.wire_created
    then rewrite_wire t d w (copy_all w.body)
    else failing
