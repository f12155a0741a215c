-- ===== src/Tests/Policy.antt =====
-- Policies: runs from a resource to the rules in the PCE, and the theorems at these resources.
use illumio_k8s_utility_oper.Prelude.{
  String, ◌≡◌, ◌↔◌, refl, true, false, none, some, List, [], ◌∷◌,
}
use illumio_k8s_utility_oper.Prelude.Dict.{Labels}
use illumio_k8s_utility_oper.Result.{ok, err}
use illumio_k8s_utility_oper.Exec.{◌>>=◌}
use illumio_k8s_utility_oper.Exec.Errors.{is_label_not_found}
use illumio_k8s_utility_oper.Api.Segmentation.{
  IntentAllow, SegmentationIntentSpec, LabelSelector, SegmentationPolicySpec,
}
use illumio_k8s_utility_oper.Pce.Objects.{Owner, Label}
use illumio_k8s_utility_oper.Policy.Compile.{
  CompiledAllow, exactly_one, compile_intent, compile_policy, labelled, whole_namespace,
}
use illumio_k8s_utility_oper.Policy.Compile.Intent
use illumio_k8s_utility_oper.Policy.Compile.Intent.{
  compile_intent-eq-ok_iff, compile_intent_first_bad,
}
use illumio_k8s_utility_oper.Policy.Compile.Network
use illumio_k8s_utility_oper.Policy.Compile.Network.{compile_policy-eq-ok_iff}
use illumio_k8s_utility_oper.Policy.Rules.{build_rules}
use illumio_k8s_utility_oper.Policy.Resolve.{
  accepted, Resolution, auto_creatable_key, resolve_allows,
}
use illumio_k8s_utility_oper.Policy.Safety.{
  AreConfined, intent_rules-IsConfined, policy_rules-IsConfined,
}
use illumio_k8s_utility_oper.Tests.World.{World, memory_client}

abbrev label_in_pce : String → String → String → Label
label_in_pce href key value = record {
  href = href;
  key = key;
  value = value;
  external_data_set = "";
  external_data_reference = "";
}

abbrev start : World
start = record {
  next = 1;
  labels =
      label_in_pce "/l/1" "app" "web"
      ∷ label_in_pce "/l/2" "env" "prod"
      ∷ label_in_pce "/l/3" "app" "checkout"
      ∷ [];
  rule_sets = [];
  rules = λ _. [];
  provisioned = [];
}

abbrev operator : Owner
operator = record { data_set = "illumio-operator"; reference = "uid-7" }

abbrev from_checkout : IntentAllow
from_checkout = record {
  from = ("app", "checkout") ∷ ("env", "staging") ∷ [];
  from_intra_namespace = [];
  ports = record { port = 8443; protocol = "TCP" } ∷ [];
}

abbrev nobody : IntentAllow
nobody = record { from = []; from_intra_namespace = []; ports = [] }

abbrev intent : List IntentAllow → SegmentationIntentSpec
intent allow = record {
  provider = [];
  allow = allow;
  allow_intra_namespace = true;
  enforcement = "full";
}

abbrev checkout_allows : List CompiledAllow
checkout_allows =
    whole_namespace []
    ∷ labelled from_checkout.from false (record { proto = 6; port = 8443; href = "" } ∷ [])
    ∷ []

intent_compiles : compile_intent (intent (from_checkout ∷ [])) ≡ ok checkout_allows
unfolding compile_intent
intent_compiles = refl

compile_intent-eq-ok_iff_example :
    (compile_intent (intent (from_checkout ∷ [])) ≡ ok checkout_allows)
    ↔ Intent.Accepts (intent (from_checkout ∷ [])) checkout_allows
compile_intent-eq-ok_iff_example =
    compile_intent-eq-ok_iff (intent (from_checkout ∷ [])) checkout_allows

compile_intent_first_bad_example :
    compile_intent (intent (from_checkout ∷ nobody ∷ [])) ≡ err (exactly_one 1)
compile_intent_first_bad_example =
    compile_intent_first_bad (intent (from_checkout ∷ nobody ∷ [])) (from_checkout ∷ []) nobody []
      refl (refl, tt) (λ e. cc)

-- In skip mode the label env=staging, which the PCE does not have, is deferred.
abbrev skipped : Resolution
skipped = record {
  allows =
      record { consumer_hrefs = []; all_workloads = true; intra_scope = true; ports = [] }
      ∷ record {
        consumer_hrefs = "/l/3" ∷ [];
        all_workloads = false;
        intra_scope = false;
        ports = record { proto = 6; port = 8443; href = "" } ∷ [];
      }
      ∷ [];
  deferred = "env=staging" ∷ [];
  created = [];
}

skip_resolves :
    resolve_allows memory_client "skip" operator checkout_allows start
    ≡ (ok (accepted skipped), start)
unfolding resolve_allows memory_client ◌>>=◌ is_label_not_found
skip_resolves = refl

intent_rules-IsConfined_example :
    AreConfined skipped.allows (build_rules [] "/services/1" skipped.allows)
intent_rules-IsConfined_example =
    intent_rules-IsConfined memory_client "skip" operator [] "/services/1" start start skipped
      (intent (from_checkout ∷ [])) checkout_allows intent_compiles skip_resolves

abbrev selector : Labels → LabelSelector
selector labels = record { match_labels = labels; match_expressions = [] }

abbrev network_policy : SegmentationPolicySpec
network_policy = record {
  pod_selector = selector [];
  ingress =
      record {
        from =
            record { pod_selector = some (selector []); namespace_selector = none }
            ∷ record {
              pod_selector = none;
              namespace_selector = some (selector (("app", "checkout") ∷ ("env", "staging") ∷ []));
            }
            ∷ [];
        ports = [];
      }
      ∷ [];
  policy_types = "Ingress" ∷ [];
  enforcement = "";
}

abbrev network_allows : List CompiledAllow
network_allows =
    whole_namespace [] ∷ labelled (("app", "checkout") ∷ ("env", "staging") ∷ []) false [] ∷ []

network_policy_compiles : compile_policy network_policy ≡ ok network_allows
unfolding compile_policy
network_policy_compiles = refl

compile_policy-eq-ok_iff_example :
    (compile_policy network_policy ≡ ok network_allows)
    ↔ Network.Accepts network_policy network_allows
compile_policy-eq-ok_iff_example = compile_policy-eq-ok_iff network_policy network_allows

abbrev created_world : World
created_world = record start {
  labels =
      record {
        href = "/ri";
        key = "env";
        value = "staging";
        external_data_set = "illumio-operator";
        external_data_reference = "env=staging";
      }
      ∷ start.labels;
  next = 2;
}

abbrev minted : Resolution
minted = record {
  allows =
      record { consumer_hrefs = []; all_workloads = true; intra_scope = true; ports = [] }
      ∷ record {
        consumer_hrefs = "/l/3" ∷ "/ri" ∷ [];
        all_workloads = false;
        intra_scope = false;
        ports = [];
      }
      ∷ [];
  deferred = [];
  created = "env=staging" ∷ [];
}

create_resolves :
    resolve_allows memory_client "create" operator network_allows start
    ≡ (ok (accepted minted), created_world)
unfolding resolve_allows memory_client ◌>>=◌ is_label_not_found auto_creatable_key
create_resolves = refl

policy_rules-IsConfined_example :
    AreConfined minted.allows (build_rules ("/l/9" ∷ []) "/services/1" minted.allows)
policy_rules-IsConfined_example =
    policy_rules-IsConfined memory_client "create" operator ("/l/9" ∷ []) "/services/1" start
      created_world minted network_policy network_allows network_policy_compiles create_resolves
