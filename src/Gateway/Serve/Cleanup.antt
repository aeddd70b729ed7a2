-- ===== src/Gateway/Serve/Cleanup.antt =====
-- internal/gateway/resource_control.go: every request gives its lease back.
use cliproxy_portal.Common.Float.{Float64}
use cliproxy_portal.Common.{Bool}
use cliproxy_portal.ResourceControl.Policy.{Policy}
use cliproxy_portal.ResourceControl.Controller.{State}
use cliproxy_portal.ResourceControl.Admission.{Admission}
use cliproxy_portal.ResourceControl.Admission.Counters.{IsCounted}
use cliproxy_portal.Gateway.Serve.{Passage}

module _ {F : Float64} where
  -- What the gateway proper and the other goroutines do keeps the counters right.
  pub record KeepsInner (inner : Passage → State F → State F × Bool) : Type 0 where
    pub kept : (how : Passage) (s : State F) → IsCounted s → IsCounted (inner how s).0
