-- ===== src/Policy/Compile/Scope.antt =====
-- Both front ends keep "All Workloads" within the namespace's scope.
use illumio_k8s_utility_oper.Prelude.{
  ◌≡◌, ◌≢◌, Bool, true, false, Option, none, some, List, [], ◌∷◌, map, All, All-append, arith,
}
use illumio_k8s_utility_oper.Result.{ok}
use illumio_k8s_utility_oper.Pce.Objects.{IngressService}
use illumio_k8s_utility_oper.Api.Segmentation.{
  IntentAllow, SegmentationIntentSpec, LabelSelector, NetworkPolicyPeer, IngressRule,
  SegmentationPolicySpec,
}
use illumio_k8s_utility_oper.Policy.Compile.{
  CompiledAllow, compile_intent, compile_policy, policy_port,
}
use illumio_k8s_utility_oper.Pce.Objects.{IngressService}
use illumio_k8s_utility_oper.Policy.Compile.Intent.{
  HasOneSource, meaning, shortcut, compile_intent-eq-ok_iff,
}
use illumio_k8s_utility_oper.Policy.Compile.Network.{
  SelectsPeer, IsPeer, selected, peer_meaning, IsIngress, ingress_meaning, all_ingress,
  compile_policy-eq-ok_iff,
}

-- All Workloads is intra-scope (outside the scope it would mean every workload of the organisation),
-- and any other entry names at least one label.
pub record IsScoped (c : CompiledAllow) : Type 0 where
  pub whole : c.all_workloads ≡ true → c.intra_scope ≡ true
  pub named : c.all_workloads ≡ false → c.from ≢ []

meaning-IsScoped : (a : IntentAllow) → HasOneSource a → IsScoped (meaning a)
meaning-IsScoped a h = record { whole = ground arith; named = ground arith }

map-meaning-IsScoped : (l : List IntentAllow) → All HasOneSource l → All IsScoped (map meaning l)
map-meaning-IsScoped [] h = tt
map-meaning-IsScoped (a ∷ l) h = (meaning-IsScoped a h.0, map-meaning-IsScoped l h.1)

shortcut-IsScoped : (on : Bool) → All IsScoped (shortcut on)
shortcut-IsScoped true = (record { whole = λ e. e; named = λ e. cc }, tt)
shortcut-IsScoped false = tt

-- Whatever CompileIntent accepts, an entry for All Workloads stays within the namespace's scope, and
-- every other entry names at least one consumer label.
pub compile_intent-IsScoped :
    (spec : SegmentationIntentSpec) (out : List CompiledAllow)
    → compile_intent spec ≡ ok out
    → All IsScoped out
compile_intent-IsScoped spec out h =
    let (good, filled, same) = (compile_intent-eq-ok_iff spec out).0 h in
    rw same (
      All-append IsScoped (shortcut spec.allow_intra_namespace) (map meaning spec.allow)
        (shortcut-IsScoped spec.allow_intra_namespace) (map-meaning-IsScoped spec.allow good))

selected-IsScoped :
    (ports : List IngressService) (p n : Option LabelSelector)
    → SelectsPeer p n
    → IsScoped (selected ports p n)
selected-IsScoped ports none none h = absurd h
selected-IsScoped ports none (some n) h = record { whole = λ e. cc; named = λ e. h.1 }
selected-IsScoped ports (some p) none h = record { whole = ground arith; named = ground arith }
selected-IsScoped ports (some p) (some n) h = absurd h

peers-IsScoped :
    (ports : List IngressService) (l : List NetworkPolicyPeer)
    → All IsPeer l
    → All IsScoped (map (peer_meaning ports) l)
peers-IsScoped ports [] h = tt
peers-IsScoped ports (p ∷ l) h =
    (selected-IsScoped ports p.pod_selector p.namespace_selector h.0, peers-IsScoped ports l h.1)

all_ingress-IsScoped : (l : List IngressRule) → All IsIngress l → All IsScoped (all_ingress l)
all_ingress-IsScoped [] h = tt
all_ingress-IsScoped (ing ∷ l) h =
    All-append IsScoped (ingress_meaning ing) (all_ingress l)
      (peers-IsScoped (map policy_port ing.ports) ing.from h.0.1) (all_ingress-IsScoped l h.1)

-- The same for CompilePolicy.
pub compile_policy-IsScoped :
    (spec : SegmentationPolicySpec) (out : List CompiledAllow)
    → compile_policy spec ≡ ok out
    → All IsScoped out
compile_policy-IsScoped spec out h =
    let (types, selector, rules, same) = (compile_policy-eq-ok_iff spec out).0 h in
    rw same (all_ingress-IsScoped spec.ingress rules)
