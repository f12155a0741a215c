-- ===== src/Policy/Compile.antt =====
-- internal/controller/policyir.go, CompileIntent and CompilePolicy: both front ends lower their
-- resource to `CompiledAllow` entries, or refuse it with an error that names the entry.
pub mod Intent
pub mod Network
pub mod Scope
use mathlib.Core.Bool.{xor}
use illumio_k8s_utility_oper.Prelude.{
  ℕ, ◌+◌, String, Bool, true, false, not, ◌&&◌, Option, none, some, List, [], ◌∷◌, ◌++◌, map, ◌==◌,
  string_eq, is_empty, if◌then◌else◌,
}
use illumio_k8s_utility_oper.Prelude.Dict.{Labels}
use illumio_k8s_utility_oper.Result.{Result, ok, err, ◌>>=◌, ◌>>◌}
use illumio_k8s_utility_oper.Pce.Objects.{IngressService}
use illumio_k8s_utility_oper.Api.Segmentation.{
  IntentPort, IntentAllow, SegmentationIntentSpec, LabelSelector, NetworkPolicyPeer,
  NetworkPolicyPort, IngressRule, SegmentationPolicySpec,
}

pub record CompiledAllow : Type 0 where
  pub from : Labels
  pub all_workloads : Bool
  pub intra_scope : Bool
  pub ports : List IngressService

-- The error texts of both functions, with the indices that they print.
pub data CompileError : Type 0 where
  exactly_one : ℕ → CompileError
  intent_empty : CompileError
  unsupported_policy_type : String → CompileError
  pod_selector_expressions : CompileError
  no_peer : ℕ → CompileError
  no_selector both_selectors peer_expressions selector_needs_labels : ℕ → ℕ → CompileError

abbrev pub Compiled : Type 0
Compiled = Result CompileError (List CompiledAllow)

-- `policyTypeIngress` and `protoNameUDP`
abbrev pub policy_type_ingress : String
policy_type_ingress = "Ingress"

abbrev pub proto_name_udp : String
proto_name_udp = "UDP"

unfoldable pub proto_number : String → ℕ
proto_number protocol = if protocol == proto_name_udp then 17 else 6

abbrev pub intent_port : IntentPort → IngressService
intent_port p = record { proto = proto_number p.protocol; port = p.port; href = "" }

abbrev pub policy_port : NetworkPolicyPort → IngressService
policy_port p = record { proto = proto_number p.protocol; port = p.port; href = "" }

-- The literal that `CompileIntent` puts first for `allowIntraNamespace`, and that `CompilePolicy`
-- makes of an empty pod selector with the rule's ports.
abbrev pub whole_namespace : List IngressService → CompiledAllow
whole_namespace ports = record {
  from = [];
  all_workloads = true;
  intra_scope = true;
  ports = ports;
}

abbrev pub labelled : Labels → Bool → List IngressService → CompiledAllow
labelled from intra ports = record {
  from = from;
  all_workloads = false;
  intra_scope = intra;
  ports = ports;
}

-- One entry of `spec.allow`. The test `hasFrom == hasIntra` refuses both set, and neither.
compile_entry : ℕ → IntentAllow → Result CompileError CompiledAllow
unfolding xor
compile_entry i a =
    let has_from = not (is_empty a.from) in
    let has_intra = not (is_empty a.from_intra_namespace) in
    let ports = map intent_port a.ports in
    if not (xor has_from has_intra)
    then err (exactly_one i)
    else if has_from
    then ok (labelled a.from false ports)
    else ok (labelled a.from_intra_namespace true ports)

-- The loop over `spec.allow[i:]`, with the slice that it appends to.
compile_entries : ℕ → List IntentAllow → List CompiledAllow → Compiled
compile_entries i [] out = ok out
compile_entries i (a ∷ rest) out = do
  c ← compile_entry i a
  compile_entries (i + 1) rest (out ++ (c ∷ []))

refuse_empty : List CompiledAllow → Compiled
refuse_empty [] = err intent_empty
refuse_empty (c ∷ out) = ok (c ∷ out)

unfoldable pub compile_intent : SegmentationIntentSpec → Compiled
unfolding proto_number compile_entry compile_entries refuse_empty
compile_intent spec = do
  out ←
      compile_entries 0 spec.allow
        (if spec.allow_intra_namespace then whole_namespace [] ∷ [] else [])
  refuse_empty out

check_policy_types : List String → Result CompileError (Unit {0})
check_policy_types [] = ok tt
check_policy_types (t ∷ rest) =
    if t == policy_type_ingress then check_policy_types rest else err (unsupported_policy_type t)

-- A peer's selector, once it is known which of the two is set.
compile_selector :
    ℕ → ℕ → List IngressService → LabelSelector → Bool → Result CompileError CompiledAllow
compile_selector i j ports sel intra =
    if not (is_empty sel.match_expressions)
    then err (peer_expressions i j)
    else if intra && is_empty sel.match_labels
    then ok (whole_namespace ports)
    else if is_empty sel.match_labels
    then err (selector_needs_labels i j)
    else ok (labelled sel.match_labels intra ports)

compile_selectors :
    ℕ
    → ℕ
    → List IngressService
    → Option LabelSelector
    → Option LabelSelector
    → Result CompileError CompiledAllow
compile_selectors i j ports none none = err (no_selector i j)
compile_selectors i j ports (some pods) (some namespaces) = err (both_selectors i j)
compile_selectors i j ports (some pods) none = compile_selector i j ports pods true
compile_selectors i j ports none (some namespaces) = compile_selector i j ports namespaces false

compile_peer : ℕ → ℕ → List IngressService → NetworkPolicyPeer → Result CompileError CompiledAllow
unfolding compile_selectors compile_selector
compile_peer i j ports peer = compile_selectors i j ports peer.pod_selector peer.namespace_selector

-- The loop over `ing.From[j:]`.
compile_peers : ℕ → ℕ → List IngressService → List NetworkPolicyPeer → List CompiledAllow → Compiled
compile_peers i j ports [] out = ok out
compile_peers i j ports (peer ∷ rest) out = do
  c ← compile_peer i j ports peer
  compile_peers i (j + 1) ports rest (out ++ (c ∷ []))

compile_ingress : ℕ → IngressRule → List CompiledAllow → Compiled
compile_ingress i ing out =
    if is_empty ing.from
    then err (no_peer i)
    else compile_peers i 0 (map policy_port ing.ports) ing.from out

-- The loop over `spec.Ingress[i:]`.
compile_ingresses : ℕ → List IngressRule → List CompiledAllow → Compiled
compile_ingresses i [] out = ok out
compile_ingresses i (ing ∷ rest) out = do
  out' ← compile_ingress i ing out
  compile_ingresses (i + 1) rest out'

unfoldable pub compile_policy : SegmentationPolicySpec → Compiled
unfolding check_policy_types compile_peer compile_peers compile_ingress compile_ingresses
compile_policy spec = do
  check_policy_types spec.policy_types
  if not (is_empty spec.pod_selector.match_expressions)
      then err pod_selector_expressions
      else compile_ingresses 0 spec.ingress []
