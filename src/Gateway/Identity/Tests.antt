-- ===== src/Gateway/Identity/Tests.antt =====
-- internal/gateway/identity_*.go and codex_identity.go: runs of the definitions, and the theorems at
-- concrete inputs. The tables of the tests know the ASCII letters and digits; their opening is a
-- capital I, and their qualifier is a number sign.
use cliproxy_portal.Common.{ℕ, ◌+◌, ◌<◌, ◌≡◌, refl, ◌↔◌, inl, inr, Bool, true, false, ◌&&◌, Option, none, some, List, [], ◌∷◌, ◌++◌, arith, ltb, leb, ◌==◌, if◌then◌else◌, Bool-cases, length, codes, same}
use cliproxy_portal.Gateway.Identity.{invalid, ok, failed}
use cliproxy_portal.Gateway.Identity.Spool.{write_span, read_span, read_span-write_span, at_least}
use cliproxy_portal.Gateway.Identity.Scanner.{object, metadata, is_digit}
use cliproxy_portal.Gateway.Identity.Fields.{process_candidates}
use cliproxy_portal.Gateway.Identity.Text.{Tables, scan_text, sentence_end}
use cliproxy_portal.Gateway.Identity.Text.Halting.{MatchesSome}
use cliproxy_portal.Gateway.Identity.Patches.{Plan, scan_identity, apply_patches}
use cliproxy_portal.Gateway.Identity.Patches.Keeps.{IsChain, keep_from, apply_patches_iff}
use cliproxy_portal.Gateway.Identity.Patches.Ends.{Ended, scan_identity-Ended}
use cliproxy_portal.Gateway.Body.{Decoders}
use cliproxy_portal.Gateway.Identity.Compat.{
  Surroundings, rewritten, apply_identity, dialogue, encodings_of,
}
use cliproxy_portal.Gateway.Identity.Compat.Outcome.{Replaces, apply_identity-rewritten}

abbrev ascii_letter : ℕ → Bool
ascii_letter c = leb 97 c && leb c 122

abbrev ascii_digit : ℕ → Bool
ascii_digit c = leb 48 c && leb c 57

-- The first number sign, at a place behind the one given.
unfoldable number_sign : ℕ → List (ℕ × ℕ) → Option (ℕ × ℕ)
number_sign at [] = none
number_sign at ((c, size) ∷ items) =
    let later = number_sign (at + size) items in
    if (c == 35) && ltb 0 size then some (at, at + size) else later

abbrev capital_i : List (ℕ × ℕ) → Option (ℕ × ℕ)
capital_i [] = none
capital_i ((c, size) ∷ items) = if c == 73 then some (0, size) else none

unfoldable tables : Tables
unfolding number_sign
tables = record {
  is_letter = ascii_letter;
  is_digit = ascii_digit;
  is_separator = λ c. c == 32;
  is_space = λ c. c == 32;
  opening = capital_i;
  qualifier = number_sign 0;
}

number_sign-some :
    (at : ℕ) (items : List (ℕ × ℕ)) (a b : ℕ) → number_sign at items ≡ some (a, b) → 0 < b
unfolding number_sign
number_sign-some at [] a b h = cc
number_sign-some at ((c, size) ∷ items) a b h = elim (Bool-cases ((c == 35) && ltb 0 size)) [
  | inl e ↦
      let found : ◌≡◌ {A = Option (ℕ × ℕ)} (some (at, at + size)) (some (a, b)) = rw e at h in
      let same : at + size ≡ b = cc in ground (arith, e, same)
  | inr e ↦
      let later : number_sign (at + size) items ≡ some (a, b) = rw e at h in
      number_sign-some (at + size) items a b later
]

tables-MatchesSome : MatchesSome tables
unfolding tables
tables-MatchesSome items a b h = number_sign-some 0 items a b h

abbrev body : List ℕ
body = codes "{\"instructions\":\"I #.\"}"

abbrev path : List ℕ
path = codes "/v1/responses"

-- The number sign is at 19.
abbrev plan : Plan
plan = record { model = []; patches = record { start = 19; end = 20 } ∷ [] }

body-scanned : scan_identity tables true true body false path ≡ ok plan
unfolding scan_identity tables object metadata process_candidates scan_text sentence_end
body-scanned = refl

-- Behind the end of a sentence nothing is removed.
later_sentence-kept :
    scan_identity tables true true (codes "{\"instructions\":\"I am. #\"}") false path
    ≡ ok (record { model = []; patches = [] })
unfolding scan_identity tables object metadata process_candidates scan_text sentence_end
later_sentence-kept = refl

-- A field that comes twice is refused.
field_twice :
    scan_identity tables true true (codes "{\"model\":\"a\",\"model\":\"b\"}") false path
    ≡ failed invalid
unfolding scan_identity tables object metadata process_candidates scan_text sentence_end
field_twice = refl

scan_identity-Ended_example : Ended true false (scan_identity tables true true body false path)
scan_identity-Ended_example =
    scan_identity-Ended tables true true body false path tables-MatchesSome

abbrev output : List ℕ
output = codes "{\"instructions\":\"I .\"}"

abbrev output_size : ℕ
output_size = 22

apply_patches_iff_example :
    (apply_patches true body plan.patches ≡ ok (output, output_size))
    ↔ IsChain 0 (length body) plan.patches
      × (output ≡ keep_from 0 plan.patches body)
      × (output_size ≡ length output)
apply_patches_iff_example = apply_patches_iff body plan.patches output output_size

abbrev no_decoders : Decoders
no_decoders = record {
  gzip = λ l. none;
  zlib = λ l. none;
  zstd = λ l. none;
  flate = λ l. record { bytes = []; fails = true };
}

-- A request whose model is routed to a channel with the removal enabled.
abbrev surroundings : Bool → Surroundings
surroundings output = record {
  has_body = true;
  is_post = true;
  enabled = true;
  path = path;
  encoding = codes "Identity";
  body = record { bytes = body; fails = false };
  wire_created = true;
  files = [];
  cancelled = false;
  broken = false;
  candidates_created = true;
  patches_created = true;
  output_created = output;
  should_remove = λ model. some true;
}

apply_identity-rewritten_example :
    (apply_identity tables no_decoders (surroundings true) ≡ rewritten output output_size)
    ↔ Replaces tables no_decoders (surroundings true) output output_size
apply_identity-rewritten_example =
    apply_identity-rewritten tables no_decoders (surroundings true) output output_size

run-rewritten : apply_identity tables no_decoders (surroundings true) ≡ rewritten output output_size
unfolding apply_identity dialogue encodings_of tables object metadata process_candidates scan_text
    sentence_end
run-rewritten = refl

read_span-write_span_example :
    read_span (write_span (record { start = 19; end = 300 }) ++ 7 ∷ [])
    ≡ some (at_least 19, at_least 300, 7 ∷ [])
read_span-write_span_example =
    read_span-write_span (record { start = 19; end = 300 }) (7 ∷ []) (omega arith) (omega arith)
