-- ===== src/Policy/Enforcement/Strictest.antt =====
-- The effective mode is the strictest of all that are asked for, and `set_by` names who asked for it.
use illumio_k8s_utility_oper.Prelude.{
  ℕ, ◌≤◌, ◌<◌, String, ◌≡◌, refl, ◌⊎◌, inl, inr, List, [], ◌∷◌, ◌++◌, All, arith, eq_iff,
  Bool-cases, ltb, string_eq, if◌then◌else◌,
}
use illumio_k8s_utility_oper.Result.{ok}
use illumio_k8s_utility_oper.Exec.{resume, ◌>>=◌}
use illumio_k8s_utility_oper.Api.Cluster.{Reader}
use illumio_k8s_utility_oper.Api.Segmentation.{SegmentationIntent, SegmentationPolicy}
use illumio_k8s_utility_oper.Policy.Enforcement.{
  intent_requests, policy_requests, effective_enforcement, enforcement_rank, strictest_from,
  strictest_enforcement, Effective, Request, raise_by, raise_all, admin_baseline,
}

rank-empty : enforcement_rank "" ≡ 0
unfolding enforcement_rank
rank-empty = refl

abbrev pub IsAtMost : ℕ → String → Type 0
IsAtMost n m = enforcement_rank m ≤ n

strictest_from-ge :
    (best : String) (modes : List String)
    → enforcement_rank best ≤ enforcement_rank (strictest_from best modes)
unfolding strictest_from
strictest_from-ge best [] = omega arith
strictest_from-ge best (m ∷ modes) =
    ground (arith, strictest_from-ge best modes, strictest_from-ge m modes)

strictest_from_bound :
    (best : String) (modes : List String)
    → All (IsAtMost (enforcement_rank (strictest_from best modes))) modes
unfolding strictest_from
strictest_from_bound best [] = tt
strictest_from_bound best (m ∷ modes) = (
  ground (arith, strictest_from-ge best modes, strictest_from-ge m modes),
  strictest_from_bound (if ltb (enforcement_rank best) (enforcement_rank m) then m else best) modes,
)

-- One of the modes, or the empty one.
abbrev pub OneOf : String → List String → Type 0
OneOf s [] = ⊥
OneOf s (m ∷ modes) = (s ≡ m) ⊎ OneOf s modes

strictest_from-OneOf :
    (best : String) (modes : List String)
    → (strictest_from best modes ≡ best) ⊎ OneOf (strictest_from best modes) modes
unfolding strictest_from
strictest_from-OneOf best [] = inl refl
strictest_from-OneOf best (m ∷ modes) =
    ground (arith, strictest_from-OneOf best modes, strictest_from-OneOf m modes)

-- No mode in the list is stricter than the result, and the result is one of them, or empty if none is
-- a known mode.
pub strictest_enforcement_lem :
    (modes : List String)
    → All (IsAtMost (enforcement_rank (strictest_enforcement modes))) modes
      × ((strictest_enforcement modes ≡ "") ⊎ OneOf (strictest_enforcement modes) modes)
unfolding strictest_enforcement
strictest_enforcement_lem modes = (strictest_from_bound "" modes, strictest_from-OneOf "" modes)

abbrev pub IsKnown : String → Type 0
IsKnown m = (m ≡ "") ⊎ (0 < enforcement_rank m)

abbrev pub of_request : Request → Effective
of_request r = record { mode = r.enforcement; set_by = r.name }

strictest_two :
    (a b : String)
    → IsKnown a
    → strictest_enforcement (a ∷ b ∷ [])
      ≡ (if ltb (enforcement_rank a) (enforcement_rank b) then b else a)
unfolding strictest_enforcement strictest_from
strictest_two a b (inl e) = rw e (ground (arith, rank-empty))
strictest_two a b (inr k) = ground (arith, rank-empty)

raise_by_lem :
    (e : Effective) (r : Request)
    → IsKnown e.mode
    → raise_by e r
      ≡ (if ltb (enforcement_rank e.mode) (enforcement_rank r.enforcement) then of_request r else e)
unfolding raise_by
raise_by_lem e r k =
    rw (strictest_two e.mode r.enforcement k)
      (ground (arith, eq_iff r.enforcement e.mode, eq_iff e.mode e.mode))

-- One of the requests set the result.
abbrev pub SetBy : Effective → List Request → Type 0
SetBy e [] = ⊥
SetBy e (r ∷ requests) = (e ≡ of_request r) ⊎ SetBy e requests

abbrev pub Allows : Effective → Request → Type 0
Allows e r = enforcement_rank r.enforcement ≤ enforcement_rank e.mode

raise_by-IsKnown : (e : Effective) (r : Request) → IsKnown e.mode → IsKnown (raise_by e r).mode
raise_by-IsKnown e r k =
    rw (raise_by_lem e r k)
      (elim (Bool-cases (ltb (enforcement_rank e.mode) (enforcement_rank r.enforcement))) [
        | inl higher ↦ rw higher (inr (ground arith))
        | inr same ↦ rw same k
      ])

raise_all-ge :
    (e : Effective) (requests : List Request)
    → IsKnown e.mode
    → enforcement_rank e.mode ≤ enforcement_rank (raise_all e requests).mode
unfolding raise_all
raise_all-ge e [] k = omega arith
raise_all-ge e (r ∷ requests) k =
    ground
      (arith, raise_by_lem e r k, raise_all-ge (raise_by e r) requests (raise_by-IsKnown e r k))

raise_all_bound :
    (e : Effective) (requests : List Request)
    → IsKnown e.mode
    → All (Allows (raise_all e requests)) requests
unfolding raise_all
raise_all_bound e [] k = tt
raise_all_bound e (r ∷ requests) k = (
  ground (arith, raise_by_lem e r k, raise_all-ge (raise_by e r) requests (raise_by-IsKnown e r k)),
  raise_all_bound (raise_by e r) requests (raise_by-IsKnown e r k),
)

raise_all-SetBy :
    (e : Effective) (requests : List Request)
    → IsKnown e.mode
    → (raise_all e requests ≡ e)
      ⊎ (SetBy (raise_all e requests) requests
          × (enforcement_rank e.mode < enforcement_rank (raise_all e requests).mode))
unfolding raise_all
raise_all-SetBy e [] k = inl refl
raise_all-SetBy e (r ∷ requests) k = ground (
  arith,
  raise_by_lem e r k,
  raise_all-SetBy (raise_by e r) requests (raise_by-IsKnown e r k),
  raise_all-ge (raise_by e r) requests (raise_by-IsKnown e r k),
)

raise_all-append :
    (e : Effective) (l m : List Request) → raise_all e (l ++ m) ≡ raise_all (raise_all e l) m
unfolding raise_all
raise_all-append e [] m = refl
raise_all-append e (r ∷ l) m = raise_all-append (raise_by e r) l m

-- If both lists can be read and the baseline is a known mode or empty, the effective enforcement is at
-- least as strict as the baseline and as every request of the namespace's intents and policies. It is
-- the baseline, set by "admin", or it is stricter, and it is what the resource that it names asks for.
pub effective_enforcement_lem :
    {W : Type 0} (k8s : Reader W) (namespace baseline : String) (w w1 w2 : W)
    (intents : List SegmentationIntent) (policies : List SegmentationPolicy)
    → k8s.list_intents namespace w ≡ (ok intents, w1)
    → k8s.list_policies namespace w1 ≡ (ok policies, w2)
    → IsKnown baseline
    → let requests = intent_requests intents ++ policy_requests policies in
      (e : Effective) × (effective_enforcement k8s namespace baseline w ≡ (ok e, w2))
      × (enforcement_rank baseline ≤ enforcement_rank e.mode)
      × All (Allows e) requests
      × ((e ≡ admin_baseline baseline)
          ⊎ (SetBy e requests × (enforcement_rank baseline < enforcement_rank e.mode)))
unfolding effective_enforcement ◌>>=◌
effective_enforcement_lem k8s namespace baseline w w1 w2 intents policies hi hp known =
    let requests = intent_requests intents ++ policy_requests policies in
    (
      raise_all (admin_baseline baseline) requests,
      rw (hi, resume, hp) (rw raise_all-append),
      raise_all-ge (admin_baseline baseline) requests known,
      raise_all_bound (admin_baseline baseline) requests known,
      raise_all-SetBy (admin_baseline baseline) requests known,
    )
