-- ===== src/Policy/Controller/Lifecycle.antt =====
-- The life of a policy resource: the finalizer is stored before the PCE is written, and leaves only
-- when the PCE is clean.
use illumio_k8s_utility_oper.Prelude.{String, ◌≡◌, refl, true, List, string_eq}
use illumio_k8s_utility_oper.Result.{Result, ok, err}
use illumio_k8s_utility_oper.Exec.{pure, resume}
use illumio_k8s_utility_oper.Exec.Errors.{Error}
use illumio_k8s_utility_oper.Exec.Triple.{Triple}
use illumio_k8s_utility_oper.Api.Meta.{ConditionApi}
use illumio_k8s_utility_oper.Api.Cluster.{Reader}
use illumio_k8s_utility_oper.Api.Connection.{Config}
use illumio_k8s_utility_oper.Pce.Interfaces.{PolicyClient}
use illumio_k8s_utility_oper.Policy.Compile.{CompiledAllow}
use illumio_k8s_utility_oper.Policy.Resolve.{contains}
use illumio_k8s_utility_oper.Policy.Backend.{reconcile_policy, finalize_policy}
use illumio_k8s_utility_oper.Policy.Controller.{ControlResult, ResourceApi, Resource}

-- The result of a reconciliation whose last call is the given one.
abbrev pub ending :
    {W A : Type 0} → ControlResult → Result Error A × W → Result Error ControlResult × W
ending r (ok a, w) = (ok r, w)
ending r (err e, w) = (err e, w)

pub resume-pure :
    {W A : Type 0} (r : ControlResult) (t : Result Error A × W)
    → resume t.0 (λ _. pure r) t.1 ≡ ending r t
unfolding pure
resume-pure r (ok a, v) = refl
resume-pure r (err e, v) = refl

-- The parts of a reconciliation, for an invariant of the cluster and the PCE, the states in which the
-- resource's finalizer is stored, and those in which the PCE holds nothing of the resource.
module _ {W T : Type 0} (res : Resource T) (objects : ResourceApi W T) (k8s : Reader W)
    (api : ConditionApi) (factory : Config → PolicyClient W) (Own : T → Type 0)
    (Safe Stored Clean : W → Type 0) where
  abbrev pub IsHolding : T → Type 0
  IsHolding o = contains (res.meta o).finalizers res.finalizer ≡ true

  -- A resource that is read with its finalizer has it stored; storing one with its finalizer stores it.
  -- The backend is safe only where the finalizer is stored, and an arbitrary write of the resource only
  -- where the PCE is clean, which the finalizer makes it.
  pub record IsGuarded (namespace name : String) : Type 0 where
    pub puts : (l : List String) (o : T) → (res.meta (res.put_finalizers l o)).finalizers ≡ l
    pub own : (l : List String) (o : T) → Own o → Own (res.put_finalizers l o)
    pub reads :
        Triple Safe
          (λ o w. Own o × Safe w × (IsHolding o → Stored w))
          Safe
          (objects.get namespace name)
    pub stores :
        (o : T)
        → Own o
        → IsHolding o
        → Triple Safe (λ o' w. Own o' × Safe w × Stored w) Safe (objects.update o)
    pub reports : (o : T) → Triple Safe (λ _. Safe) Safe (objects.update_status o)
    pub reconciles :
        (o : T) (allows : List CompiledAllow)
        → Own o
        → let m = res.meta o in
          Triple
            (λ w. Safe w × Stored w)
            (λ _. Safe)
            Safe
            (reconcile_policy k8s api factory m.namespace m.name m.uid m.annotations
              (res.narrowing o)
              allows)
    pub cleans :
        (o : T)
        → Own o
        → Triple Safe
            (λ _ w. Safe w × Clean w)
            Safe
            (finalize_policy k8s api factory (res.meta o).namespace (res.meta o).uid)
    pub releases :
        (o : T) → Own o → Triple (λ w. Safe w × Clean w) (λ _. Safe) Safe (objects.update o)
