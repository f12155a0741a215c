-- ===== src/Policy/Enforcement.antt =====
-- internal/controller/policyir.go, StrictestEnforcement, and enforcement.go: the strictest enforcement
-- that the admin baseline and the policy resources of a namespace ask for.
pub mod Strictest
use illumio_k8s_utility_oper.Prelude.{ℕ, String, List, [], ◌∷◌, ◌==◌, string_eq, ltb, if◌then◌else◌}
use illumio_k8s_utility_oper.Exec.{Exec, pure, ◌>>=◌}
use illumio_k8s_utility_oper.Api.Cluster.{Reader}
use illumio_k8s_utility_oper.Api.Segmentation.{SegmentationIntent, SegmentationPolicy}

-- `enforcementRank`; a mode that the map does not have has rank 0, as the empty one.
unfoldable pub enforcement_rank : String → ℕ
enforcement_rank m =
    if m == "idle"
    then 1
    else if m == "visibility_only"
    then 2
    else if m == "selective"
    then 3
    else if m == "full"
    then 4
    else 0

-- The loop over `modes`, with `best`.
unfoldable pub strictest_from : String → List String → String
strictest_from best [] = best
strictest_from best (m ∷ modes) =
    strictest_from (if ltb (enforcement_rank best) (enforcement_rank m) then m else best) modes

unfoldable pub strictest_enforcement : List String → String
unfolding strictest_from
strictest_enforcement modes = strictest_from "" modes

pub record Effective : Type 0 where
  pub mode : String
  pub set_by : String

-- One resource of the loops: its name, and the mode that it asks for.
pub record Request : Type 0 where
  pub name : String
  pub enforcement : String

unfoldable pub raise_by : Effective → Request → Effective
raise_by e r =
    let raised = strictest_enforcement (e.mode ∷ r.enforcement ∷ []) in
    if raised == e.mode then e else record { mode = raised; set_by = r.name }

unfoldable pub raise_all : Effective → List Request → Effective
raise_all e [] = e
raise_all e (r ∷ requests) = raise_all (raise_by e r) requests

abbrev pub intent_requests : List SegmentationIntent → List Request
intent_requests [] = []
intent_requests (i ∷ intents) =
    record { name = i.meta.name; enforcement = i.spec.enforcement } ∷ intent_requests intents

abbrev pub policy_requests : List SegmentationPolicy → List Request
policy_requests [] = []
policy_requests (p ∷ policies) =
    record { name = p.meta.name; enforcement = p.spec.enforcement } ∷ policy_requests policies

abbrev pub admin_baseline : String → Effective
admin_baseline baseline = record { mode = baseline; set_by = "admin" }

unfoldable pub effective_enforcement : {W : Type 0} → Reader W → String → String → Exec W Effective
effective_enforcement k8s namespace baseline = do
  intents ← k8s.list_intents namespace
  let e = raise_all (admin_baseline baseline) (intent_requests intents)
  policies ← k8s.list_policies namespace
  pure (raise_all e (policy_requests policies))
