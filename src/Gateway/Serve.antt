-- ===== src/Gateway/Serve.antt =====
-- internal/gateway/resource_control.go: `serveHTTP`, which admits a request, checks its body, hands
-- it to the gateway proper and gives its lease back. What other goroutines do meanwhile, and the
-- gateway proper, are arguments.
pub mod Cleanup
use cliproxy_portal.Common.Float.{Float64}
use cliproxy_portal.Common.{
  ℕ, String, Bool, false, not, ◌&&◌, ◌||◌, Option, none, some, List, str_eq, ◌==◌, if◌then◌else◌, ℤ,
  pos_part, ltb_ℤ, leb_ℤ, ◌*ℕ◌, pos,
}
use cliproxy_portal.ResourceControl.Policy.{Policy, mib}
use cliproxy_portal.ResourceControl.Controller.{State, Gap, enforced}
use cliproxy_portal.ResourceControl.Admission.{
  Admission, granted, refused, acquire_request, model_done, finish, record_status,
}
use cliproxy_portal.Gateway.Body.{
  Source, Decoders, Encoding, Prepared, rejected, ready, prepare_body,
}

-- What `serveHTTP` reads of a request, the owner of its key where the store knows one, and the
-- answers of the file system.
pub record Request : Type 0 where
  pub inference : Bool
  pub owner : Option String
  pub content_length : ℤ
  pub is_post : Bool
  pub has_body : Bool
  pub is_upgrade : Bool
  pub encodings : List Encoding
  pub files : List Bool
  pub body : Source

-- How the request reaches the gateway proper: its body is checked or observed, and its websocket
-- extensions are removed.
pub record Passage : Type 0 where
  pub checked : Bool
  pub observed : Bool
  pub plain_frames : Bool

pub data Response : Type 0 where
  answered : (status : ℕ) (code : String) → Response
  passed : Passage → Response

abbrev user_of : Option String → String
user_of none = "unassigned"
user_of (some owner) = if str_eq owner "" then "unassigned" else owner

unfoldable pub refusal_status : String → ℕ
refusal_status reason =
    if str_eq reason "request_too_large"
    then 413
    else if not (str_eq reason "global_concurrency") && not (str_eq reason "user_concurrency")
    then 503
    else 429

-- Whether `resourceError` sets `Retry-After`.
unfoldable pub retry_after : ℕ → Bool
retry_after status = (status == 429) || (status == 503)

module _ {F : Float64} where
  -- The deferred calls: `Finish` unless the lease was handed over, then `ModelDone`.
  unfoldable pub close_request : ℕ → State F × Bool → State F
  close_request i (s, transferred) = model_done (if transferred then s else finish s i) i

  abbrev pub body_limit : Policy F → ℤ
  body_limit p = p.body_mib *ℕ mib

  abbrev pub checks_body : Policy F → Request → Bool
  checks_body p r = enforced p && ltb_ℤ (pos 0) (body_limit p) && r.is_post

  abbrev passage : Policy F → Request → Passage
  passage p r = record {
    checked = checks_body p r;
    observed =
        not (checks_body p r)
        && not (enforced p)
        && ltb_ℤ (pos 0) (body_limit p)
        && r.has_body
        && leb_ℤ r.content_length (body_limit p);
    plain_frames = enforced p && ltb_ℤ (pos 0) (body_limit p) && r.is_upgrade;
  }

  abbrev pub checked_body : Decoders → Policy F → Request → Prepared
  checked_body d p r =
      if checks_body p r
      then prepare_body d (pos_part (body_limit p)) r.encodings r.files r.body
      else ready r.body.bytes

  -- A rejected body is recorded and answered; any other request goes on.
  unfoldable pub serve_prepared :
      Gap F
      → (Passage → State F → State F × Bool)
      → State F
      → ℕ
      → Policy F
      → Request
      → ℕ
      → Prepared
      → State F × Response
  unfolding close_request
  serve_prepared g inner s i p r now (rejected code) = (
    close_request i (record_status g s i "request_too_large_or_invalid" (pos code) now, false),
    answered code "request_body_rejected",
  )
  serve_prepared g inner s i p r now (ready body) =
      (close_request i (inner (passage p r) s), passed (passage p r))

  unfoldable pub serve_admitted :
      Gap F
      → (State F → State F)
      → (Passage → State F → State F × Bool)
      → Decoders
      → State F
      → Policy F
      → Request
      → ℕ
      → Admission
      → State F × Response
  unfolding serve_prepared refusal_status
  serve_admitted g meanwhile inner d s p r now (refused reason) =
      (s, answered (refusal_status reason) reason)
  serve_admitted g meanwhile inner d s p r now (granted i) =
      serve_prepared g inner (meanwhile s) i p r now (checked_body d p r)

  -- The lease's policy is the one that `AcquireRequest` reads first.
  unfoldable pub serve_http :
      Gap F
      → Gap F
      → Gap F
      → (State F → State F)
      → (Passage → State F → State F × Bool)
      → Decoders
      → State F
      → Request
      → ℕ
      → State F × Response
  unfolding serve_admitted
  serve_http g g' g'' meanwhile inner d s r now =
      let (s', admission) = acquire_request g g' s (user_of r.owner) r.content_length now in
      if r.inference
      then serve_admitted g'' meanwhile inner d s' s.ctl.policy r now admission
      else (let through : Passage = record {
        checked = false;
        observed = false;
        plain_frames = false;
      } in
          ((inner through s).0, passed through))
