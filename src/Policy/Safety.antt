-- ===== src/Policy/Safety.antt =====
-- The whole way from a resource to the rules that are written to the PCE: CompileIntent or
-- CompilePolicy, resolveAllows and BuildRules.
use illumio_k8s_utility_oper.Prelude.{
  String, ◌≡◌, ◌≢◌, refl, true, List, [], ◌∷◌, map, All, Mem, some, arith, Bool-cases, inl, inr,
}
use illumio_k8s_utility_oper.Result.{ok}
use illumio_k8s_utility_oper.Api.Segmentation.{SegmentationIntentSpec, SegmentationPolicySpec}
use illumio_k8s_utility_oper.Pce.Objects.{Owner, Actor, label_actor, SecRule}
use illumio_k8s_utility_oper.Pce.Interfaces.{PolicyClient}
use illumio_k8s_utility_oper.Policy.Compile.{CompiledAllow, compile_intent, compile_policy}
use illumio_k8s_utility_oper.Policy.Compile.Scope.{compile_intent-IsScoped, compile_policy-IsScoped}
use illumio_k8s_utility_oper.Policy.Rules.{ResolvedAllow, rule_providers, build_rule, build_rules}
use illumio_k8s_utility_oper.Policy.Resolve.{accepted, Resolution, resolve_allows}
use illumio_k8s_utility_oper.Policy.Resolve.Allows.{IsResolved, resolve_allows-AreResolved}

-- An actor that names a label of the list by its href, and no reserved name such as All Workloads.
abbrev pub IsLabelled : List String → Actor → Type 0
IsLabelled hrefs c =
    (href : String) × Mem hrefs href × (c.label ≡ some (record { href = href })) × (c.actors ≡ "")

-- The rule of an entry names providers, consumers and services, and if its consumers may come from
-- outside the scope it names them by the entry's labels: it never lets in every workload of the
-- organisation.
pub record IsConfined (a : ResolvedAllow) (r : SecRule) : Type 0 where
  pub provided : r.providers ≢ []
  pub consumed : r.consumers ≢ []
  pub served : r.ingress_services ≢ []
  pub confined : r.unscoped_consumers ≡ true → All (IsLabelled a.consumer_hrefs) r.consumers

-- One rule for each entry.
abbrev pub AreConfined : List ResolvedAllow → List SecRule → Type 0
AreConfined [] [] = Unit
AreConfined (a ∷ allows) (r ∷ rules) = IsConfined a r × AreConfined allows rules
AreConfined _ _ = ⊥

map-label_actor-IsLabelled :
    (whole hrefs : List String)
    → ((h : String) → Mem hrefs h → Mem whole h)
    → All (IsLabelled whole) (map label_actor hrefs)
map-label_actor-IsLabelled whole [] within = tt
map-label_actor-IsLabelled whole (h ∷ hrefs) within = (
  (h, within h (inl refl), refl, refl),
  map-label_actor-IsLabelled whole hrefs (λ k m. within k (inr m)),
)

rule_providers-ne-nil : (hrefs : List String) → rule_providers hrefs ≢ []
rule_providers-ne-nil [] h = cc
rule_providers-ne-nil (x ∷ hrefs) h = cc

map-ne-nil : (hrefs : List String) → hrefs ≢ [] → map label_actor hrefs ≢ []
map-ne-nil [] h e = h refl
map-ne-nil (x ∷ hrefs) h e = cc

build_rule-IsConfined :
    (narrow : List String) (svc : String) (a : ResolvedAllow)
    → IsResolved a
    → IsConfined a (build_rule narrow svc a)
unfolding build_rule
build_rule-IsConfined narrow svc a h = elim (Bool-cases a.all_workloads) [
  | inl whole ↦ record {
    provided = rule_providers-ne-nil narrow;
    consumed = rw whole (λ e. cc);
    served = ground arith;
    confined = λ e. absurd (ground (arith, h.whole whole));
  }
  | inr named ↦ record {
    provided = rule_providers-ne-nil narrow;
    consumed = rw named (map-ne-nil a.consumer_hrefs (h.named named));
    served = ground arith;
    confined =
        λ e. rw named (map-label_actor-IsLabelled a.consumer_hrefs a.consumer_hrefs (λ h m. m));
  }
]

build_rules-IsConfined :
    (narrow : List String) (svc : String) (resolved : List ResolvedAllow)
    → All IsResolved resolved
    → AreConfined resolved (build_rules narrow svc resolved)
unfolding build_rules
build_rules-IsConfined narrow svc [] h = tt
build_rules-IsConfined narrow svc (a ∷ resolved) h =
    (build_rule-IsConfined narrow svc a h.0, build_rules-IsConfined narrow svc resolved h.1)

module _ {W : Type 0} (client : PolicyClient W) (mode : String) (owner : Owner)
    (narrow : List String) (svc : String) (w w' : W) (resolution : Resolution) where
  -- The rules that are built for an intent are one for each resolved entry. Each has providers, consumers
  -- and services, and if its consumers are not confined to the namespace's scope, each of them names a
  -- label by an href that was resolved for that entry, and none is All Workloads. This holds in each
  -- unknown-label mode and whatever the PCE answers.
  pub intent_rules-IsConfined :
      (spec : SegmentationIntentSpec) (allows : List CompiledAllow)
      → compile_intent spec ≡ ok allows
      → resolve_allows client mode owner allows w ≡ (ok (accepted resolution), w')
      → AreConfined resolution.allows (build_rules narrow svc resolution.allows)
  intent_rules-IsConfined spec allows compiled resolved =
      build_rules-IsConfined narrow svc resolution.allows (
        resolve_allows-AreResolved client mode owner allows w w' resolution
          (compile_intent-IsScoped spec allows compiled) resolved)

  -- The rules that are built for a SegmentationPolicy are one for each resolved entry. Each has providers,
  -- consumers and services, and if its consumers are not confined to the namespace's scope, each of them
  -- names a label by an href that was resolved for that entry, and none is All Workloads, in each
  -- unknown-label mode and whatever the PCE answers.
  pub policy_rules-IsConfined :
      (spec : SegmentationPolicySpec) (allows : List CompiledAllow)
      → compile_policy spec ≡ ok allows
      → resolve_allows client mode owner allows w ≡ (ok (accepted resolution), w')
      → AreConfined resolution.allows (build_rules narrow svc resolution.allows)
  policy_rules-IsConfined spec allows compiled resolved =
      build_rules-IsConfined narrow svc resolution.allows (
        resolve_allows-AreResolved client mode owner allows w w' resolution
          (compile_policy-IsScoped spec allows compiled) resolved)
