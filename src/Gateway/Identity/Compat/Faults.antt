-- ===== src/Gateway/Identity/Compat/Faults.antt =====
-- internal/gateway/codex_identity.go: why a request fails.
use cliproxy_portal.Common.{ℕ, ◌≡◌, true, false, ◌&&◌, List, length}
use cliproxy_portal.Gateway.Identity.{bad_text, ok, failed}
use cliproxy_portal.Gateway.Identity.Text.{Tables}
use cliproxy_portal.Gateway.Identity.Patches.{Plan}
use cliproxy_portal.Gateway.Identity.Patches.Keeps.{IsChain}
use cliproxy_portal.Gateway.Identity.Compat.{Surroundings}
use cliproxy_portal.Gateway.Identity.Compat.Outcome.{scan_of}

-- What can make a request fail: the wire's file, the client's connection, the end of the request, the
-- two files of the scan, a read of the decoded file, the output's file, a text that does not decode
-- or a match within it that ends inside a character, or a plan whose places overlap.
pub data Fault (t : Tables) (w : Surroundings) : Type 0 where
  no_wire : w.wire_created ≡ false → Fault t w
  unread : w.body.fails ≡ true → Fault t w
  ended : w.cancelled ≡ true → Fault t w
  no_lists : (w.candidates_created && w.patches_created) ≡ false → Fault t w
  unreadable : w.broken ≡ true → Fault t w
  no_output : w.output_created ≡ false → Fault t w
  unlocated : (decoded : List ℕ) → scan_of t w decoded ≡ failed bad_text → Fault t w
  overlapping :
      (decoded : List ℕ) (plan : Plan)
      → scan_of t w decoded ≡ ok plan
      → (IsChain 0 (length decoded) plan.patches → ⊥)
      → Fault t w
