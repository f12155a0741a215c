-- ===== src/Policy/Compile/Network.antt =====
-- What CompilePolicy accepts, and what it makes of it: the NetworkPolicy reading, in which each peer
-- of a `from` list is one allow entry (peers are alternatives).
use mathlib.Core.List.{append_assoc, append-nil}
use illumio_k8s_utility_oper.Prelude.{
  ℕ, ◌+◌, String, ◌≡◌, ◌≢◌, ◌↔◌, refl, ◌∙◌, true, false, Option, none, some, List, [], ◌∷◌, ◌++◌,
  map, All, arith, is_empty, string_eq, eq_iff, if◌then◌else◌,
}
use illumio_k8s_utility_oper.Result.{ok, >>=-eq-ok}
use illumio_k8s_utility_oper.Pce.Objects.{IngressService}
use illumio_k8s_utility_oper.Api.Segmentation.{
  LabelSelector, NetworkPolicyPeer, IngressRule, SegmentationPolicySpec,
}
use illumio_k8s_utility_oper.Policy.Compile.{
  CompiledAllow, policy_type_ingress, policy_port, whole_namespace, labelled, check_policy_types,
  compile_selectors, compile_selector, compile_peer, compile_peers, compile_ingress,
  compile_ingresses, compile_policy,
}

-- A pod selector may be empty, a namespace selector may not; neither may use match expressions.
abbrev pub SelectsPeer : Option LabelSelector → Option LabelSelector → Type 0
SelectsPeer (some pods) none = pods.match_expressions ≡ []
SelectsPeer none (some namespaces) =
    (namespaces.match_expressions ≡ []) × (namespaces.match_labels ≢ [])
SelectsPeer _ _ = ⊥

abbrev pub IsPeer : NetworkPolicyPeer → Type 0
IsPeer p = SelectsPeer p.pod_selector p.namespace_selector

-- What a pair of selectors selects: pods of the namespace are intra-scope, all of them if no label is
-- given, and pods of other namespaces are extra-scope.
abbrev pub selected :
    List IngressService → Option LabelSelector → Option LabelSelector → CompiledAllow
selected ports (some pods) namespaces =
    if is_empty pods.match_labels
    then whole_namespace ports
    else labelled pods.match_labels true ports
selected ports none (some namespaces) = labelled namespaces.match_labels false ports
selected ports none none = whole_namespace ports

abbrev pub peer_meaning : List IngressService → NetworkPolicyPeer → CompiledAllow
peer_meaning ports p = selected ports p.pod_selector p.namespace_selector

abbrev pub IsIngress : IngressRule → Type 0
IsIngress ing = (ing.from ≢ []) × All IsPeer ing.from

abbrev pub ingress_meaning : IngressRule → List CompiledAllow
ingress_meaning ing = map (peer_meaning (map policy_port ing.ports)) ing.from

abbrev pub all_ingress : List IngressRule → List CompiledAllow
all_ingress [] = []
all_ingress (ing ∷ rest) = ingress_meaning ing ++ all_ingress rest

compile_selectors-SelectsPeer :
    (i j : ℕ) (ports : List IngressService) (p n : Option LabelSelector)
    → SelectsPeer p n
    → compile_selectors i j ports p n ≡ ok (selected ports p n)
unfolding compile_selectors compile_selector
compile_selectors-SelectsPeer i j ports none none h = absurd h
compile_selectors-SelectsPeer i j ports none (some n) h = ground arith
compile_selectors-SelectsPeer i j ports (some p) none h = ground arith
compile_selectors-SelectsPeer i j ports (some p) (some n) h = absurd h

compile_selectors-eq-ok :
    (i j : ℕ) (ports : List IngressService) (p n : Option LabelSelector) (c : CompiledAllow)
    → compile_selectors i j ports p n ≡ ok c
    → SelectsPeer p n × (c ≡ selected ports p n)
unfolding compile_selectors compile_selector
compile_selectors-eq-ok i j ports none none c h = cc
compile_selectors-eq-ok i j ports none (some n) c h = ground arith
compile_selectors-eq-ok i j ports (some p) none c h = ground arith
compile_selectors-eq-ok i j ports (some p) (some n) c h = cc

compile_peers-of_All :
    (i j : ℕ) (ports : List IngressService) (l : List NetworkPolicyPeer) (out : List CompiledAllow)
    → All IsPeer l
    → compile_peers i j ports l out ≡ ok (out ++ map (peer_meaning ports) l)
unfolding compile_peers compile_peer
compile_peers-of_All i j ports [] out h = rw append-nil
compile_peers-of_All i j ports (p ∷ l) out h =
    rw (compile_selectors-SelectsPeer i j ports p.pod_selector p.namespace_selector h.0) (
      compile_peers-of_All i (j + 1) ports l (out ++ (peer_meaning ports p ∷ [])) h.1
      ∙ rw append_assoc)

compile_peers-eq-ok :
    (i j : ℕ) (ports : List IngressService) (l : List NetworkPolicyPeer)
    (out r : List CompiledAllow)
    → compile_peers i j ports l out ≡ ok r
    → All IsPeer l
unfolding compile_peers compile_peer
compile_peers-eq-ok i j ports [] out r h = tt
compile_peers-eq-ok i j ports (p ∷ l) out r h =
    let (c, e, rest) =
      >>=-eq-ok (compile_peer i j ports p) (λ c. compile_peers i (j + 1) ports l (out ++ (c ∷ [])))
        h in
    (
      (compile_selectors-eq-ok i j ports p.pod_selector p.namespace_selector c e).0,
      compile_peers-eq-ok i (j + 1) ports l (out ++ (c ∷ [])) r rest,
    )

compile_ingress-IsIngress :
    (i : ℕ) (ing : IngressRule) (out : List CompiledAllow)
    → IsIngress ing
    → compile_ingress i ing out ≡ ok (out ++ ingress_meaning ing)
unfolding compile_ingress
compile_ingress-IsIngress i ing out h =
    ground (arith, compile_peers-of_All i 0 (map policy_port ing.ports) ing.from out h.1)

compile_ingress-eq-ok :
    (i : ℕ) (ing : IngressRule) (out r : List CompiledAllow)
    → compile_ingress i ing out ≡ ok r
    → IsIngress ing
unfolding compile_ingress
compile_ingress-eq-ok i ing out r h = (
  ground arith,
  compile_peers-eq-ok i 0 (map policy_port ing.ports) ing.from out r (ground arith),
)

compile_ingresses-of_All :
    (i : ℕ) (l : List IngressRule) (out : List CompiledAllow)
    → All IsIngress l
    → compile_ingresses i l out ≡ ok (out ++ all_ingress l)
unfolding compile_ingresses
compile_ingresses-of_All i [] out h = rw append-nil
compile_ingresses-of_All i (ing ∷ l) out h =
    rw (compile_ingress-IsIngress i ing out h.0)
      (compile_ingresses-of_All (i + 1) l (out ++ ingress_meaning ing) h.1 ∙ rw append_assoc)

compile_ingresses-eq-ok :
    (i : ℕ) (l : List IngressRule) (out r : List CompiledAllow)
    → compile_ingresses i l out ≡ ok r
    → All IsIngress l
unfolding compile_ingresses
compile_ingresses-eq-ok i [] out r h = tt
compile_ingresses-eq-ok i (ing ∷ l) out r h =
    let (c, e, rest) = >>=-eq-ok (compile_ingress i ing out) (compile_ingresses (i + 1) l) h in
    (compile_ingress-eq-ok i ing out c e, compile_ingresses-eq-ok (i + 1) l c r rest)

check_policy_types_iff :
    (l : List String) → (check_policy_types l ≡ ok tt) ↔ All (λ t. t ≡ policy_type_ingress) l
unfolding check_policy_types
check_policy_types_iff [] = (λ _. tt, λ _. refl)
check_policy_types_iff (t ∷ l) = (
  λ h. (ground (arith, eq_iff t policy_type_ingress), (check_policy_types_iff l).0 (ground arith)),
  λ h. ground (arith, eq_iff t policy_type_ingress, (check_policy_types_iff l).1 h.1),
)

abbrev pub Accepts : SegmentationPolicySpec → List CompiledAllow → Type 0
Accepts spec out =
    All (λ t. t ≡ policy_type_ingress) spec.policy_types
    × (spec.pod_selector.match_expressions ≡ [])
    × All IsIngress spec.ingress
    × (out ≡ all_ingress spec.ingress)

compile_ingresses_iff :
    (l : List IngressRule) (out : List CompiledAllow)
    → (compile_ingresses 0 l [] ≡ ok out) ↔ (All IsIngress l × (out ≡ all_ingress l))
compile_ingresses_iff l out = (
  λ h.
      let good = compile_ingresses-eq-ok 0 l [] out h in
      (good, cc (h, compile_ingresses-of_All 0 l [] good)),
  λ (good, same). rw same (compile_ingresses-of_All 0 l [] good),
)

-- CompilePolicy accepts a specification exactly if it asks for Ingress only, its pod selector has no
-- match expressions, and each ingress rule has peers, each with exactly one selector, without match
-- expressions, a namespace selector with labels. The result is one entry for each peer, in order:
-- intra-scope for a pod selector (all workloads if it is empty), extra-scope for a namespace selector.
pub compile_policy-eq-ok_iff :
    (spec : SegmentationPolicySpec) (out : List CompiledAllow)
    → (compile_policy spec ≡ ok out) ↔ Accepts spec out
unfolding compile_policy
compile_policy-eq-ok_iff spec out = (
  λ h. ground (
    arith,
    (check_policy_types_iff spec.policy_types).0,
    (compile_ingresses_iff spec.ingress out).0,
  ),
  λ (types, selector, rules, same).
      rw ((check_policy_types_iff spec.policy_types).1 types, selector)
        ((compile_ingresses_iff spec.ingress out).1 (rules, same)),
)
