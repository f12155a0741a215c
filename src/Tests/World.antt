-- ===== src/Tests/World.antt =====
-- A PCE and a cluster in memory, which do what the two APIs document.
use illumio_k8s_utility_oper.Prelude.{
  ℕ, zero, suc, String, ◌<>◌, ◌≡◌, refl, sym, ap, ◌∙◌, true, ◌&&◌, Option, none, some, List, [],
  ◌∷◌, ◌++◌, arith, eq_iff, ◌==◌, string_eq, beq_refl, if◌then◌else◌,
}
use illumio_k8s_utility_oper.Result.{Result, ok, err}
use illumio_k8s_utility_oper.Exec.{Exec}
use illumio_k8s_utility_oper.Exec.Value.{ok_injective}
use illumio_k8s_utility_oper.Exec.Errors.{Error, label_not_found, kube_not_found}
use illumio_k8s_utility_oper.Api.Meta.{
  ConditionApi, Condition, condition_true, text, is_true_status, Namespace, IsLawful,
}
use illumio_k8s_utility_oper.Api.Cluster.{Reader}
use illumio_k8s_utility_oper.Api.ClusterProfile.{ClusterProfile, NamespaceRule}
use illumio_k8s_utility_oper.Api.Connection.{PceConnection}
use illumio_k8s_utility_oper.Api.Segmentation.{SegmentationIntent}
use illumio_k8s_utility_oper.Pce.Objects.{Owner, Label, RuleSet, SecRule}
use illumio_k8s_utility_oper.Pce.Interfaces.{PolicyClient}
use illumio_k8s_utility_oper.Policy.Draft.Replace
use illumio_k8s_utility_oper.Policy.Draft.Replace.{without}

pub record World : Type 0 where
  pub next : ℕ
  pub labels : List Label
  pub rule_sets : List RuleSet
  pub rules : String → List SecRule
  pub provisioned : List String

-- A href of its own for each number.
pub tag : ℕ → String
tag zero = "/r"
tag (suc n) = tag n <> "i"

pub label_of : List Label → String → String → Option Label
label_of [] key value = none
label_of (l ∷ labels) key value =
    if l.key == key && l.value == value then some l else label_of labels key value

owned_by : List RuleSet → Owner → Option RuleSet
owned_by [] owner = none
owned_by (rs ∷ sets) owner =
    if rs.external_data_reference == owner.reference then some rs else owned_by sets owner

drop_set : String → List RuleSet → List RuleSet
drop_set href [] = []
drop_set href (rs ∷ sets) = if rs.href == href then drop_set href sets else rs ∷ drop_set href sets

abbrev new_label : World → String → String → Owner → Label
new_label w key value owner = record {
  href = tag w.next;
  key = key;
  value = value;
  external_data_set = owner.data_set;
  external_data_reference = key <> "=" <> value;
}

unfoldable pub found_label : Option Label → Exec World Label
found_label none w = (err label_not_found, w)
found_label (some l) w = (ok l, w)

unfoldable pub ensured_label : String → String → Owner → Option Label → Exec World Label
unfolding tag
ensured_label key value owner (some l) w = (ok l, w)
ensured_label key value owner none w = (
  ok (new_label w key value owner),
  record w { labels = new_label w key value owner ∷ w.labels; next = suc w.next },
)

unfoldable pub memory_client : PolicyClient World
unfolding found_label ensured_label tag label_of owned_by drop_set
memory_client = record {
  find_label = λ key value w. found_label (label_of w.labels key value) w;
  ensure_label = λ key value owner w. ensured_label key value owner (label_of w.labels key value) w;
  find_service_by_name = λ name w. (ok (some (record { href = "/services/1"; name = name })), w);
  find_rule_set_by_owner = λ owner w. (ok (owned_by w.rule_sets owner), w);
  create_rule_set = λ rs w.
      let rs' : RuleSet = record rs { href = tag w.next } in
      (
        ok rs',
        record w {
          rule_sets = rs' ∷ w.rule_sets;
          rules = λ g. if g == tag w.next then [] else w.rules g;
          next = suc w.next;
        },
      );
  delete_rule_set = λ href w. (ok tt, record w { rule_sets = drop_set href w.rule_sets });
  list_rules = λ href w. (ok (w.rules href), w);
  create_rule = λ href r w.
      let r' : SecRule = record r { href = tag w.next } in
      (
        ok r',
        record w {
          rules = λ g. if g == href then w.rules g ++ (r' ∷ []) else w.rules g;
          next = suc w.next;
        },
      );
  delete_rule = λ href w. (ok tt, record w { rules = λ g. without href (w.rules g) });
  provision_rule_sets = λ hrefs description w. (
    ok (record { href = ""; version = 1; workloads_affected = 3 }),
    record w { provisioned = w.provisioned ++ hrefs },
  );
}

abbrev pub rules_of : World → String → List SecRule
rules_of w href = w.rules href

same_world :
    {A : Type 0} {r s : A} {w w' : World}
    → ◌≡◌ {A = A × World} (r, w) (s, w')
    → (href : String) → rules_of w' href ≡ rules_of w href
same_world h href = ap (λ t. rules_of t.1 href) (sym h)

same_value :
    {A : Type 0} {a b : A} {w w' : World}
    → ◌≡◌ {A = Result Error A × World} (ok a, w) (ok b, w')
    → a ≡ b
same_value h = ok_injective (ap (λ t. t.0) h)

pub memory_client-IsLawful : Replace.IsLawful memory_client rules_of
unfolding memory_client
memory_client-IsLawful = record {
  find_rule_set = λ owner w w' o h href. same_world h href;
  find_service = λ name w w' o h href. same_world h href;
  create_rule_set = λ rs w w' created h.
      ap (λ t. rules_of t.1 created.href) (sym h)
      ∙ ground
          (arith, eq_iff created.href (tag w.next), ap (λ (c : RuleSet). c.href) (same_value h));
  list_rules = λ href w w' l h. (sym (same_value h), same_world h href);
  delete_rule = λ rh href w w' u h. same_world h href;
  create_rule = λ href r created w w' h.
      ap (λ t. rules_of t.1 href) (sym h)
      ∙ rw beq_refl (
          ap (λ x. w.rules href ++ (record r { href = x } ∷ []))
            (ap (λ (c : SecRule). c.href) (same_value h)));
}

-- The condition functions, over the list.
pub find_cond : List Condition → String → Option Condition
find_cond [] kind = none
find_cond (c ∷ conds) kind = if c.kind == kind then some c else find_cond conds kind

pub set_cond : List Condition → Condition → List Condition
set_cond [] c = c ∷ []
set_cond (d ∷ conds) c = if d.kind == c.kind then c ∷ conds else d ∷ set_cond conds c

unfoldable pub memory_conditions : ConditionApi
unfolding find_cond set_cond
memory_conditions = record {
  set_condition = set_cond;
  find_condition = find_cond;
  is_condition_true = λ conds kind. is_true_status (find_cond conds kind);
}

find_cond-set_cond :
    (conds : List Condition) (c : Condition) (kind : String)
    → find_cond (set_cond conds c) kind ≡ (if c.kind == kind then some c else find_cond conds kind)
unfolding find_cond set_cond
find_cond-set_cond [] c kind = refl
find_cond-set_cond (d ∷ conds) c kind = ground (
  arith,
  eq_iff d.kind c.kind,
  eq_iff d.kind kind,
  eq_iff c.kind kind,
  find_cond-set_cond conds c kind,
)

pub memory_conditions-IsLawful : IsLawful memory_conditions
unfolding memory_conditions
memory_conditions-IsLawful = record {
  find-set_self = λ conds c. find_cond-set_cond conds c c.kind ∙ rw beq_refl;
  find-set_ne =
      λ conds c kind ne. find_cond-set_cond conds c kind ∙ ground (arith, eq_iff c.kind kind);
  is_condition_true_lem = λ conds kind. refl;
}

abbrev pub holding : String → Condition
holding kind = record {
  kind = kind;
  status = condition_true;
  reason = kind;
  message = text "";
  observed_generation = 1;
}

abbrev pub shop : Namespace
shop = record {
  name = "shop";
  labels = ("team", "web") ∷ [];
  annotations = ("microsegment.io/label.env", "prod") ∷ ("owner", "ops") ∷ [];
}

abbrev pub web_rule : NamespaceRule
web_rule = record {
  match = record { name_pattern = ""; labels = ("team", "web") ∷ [] };
  managed = true;
  assign_labels = ("app", record { value = ""; from_namespace_label = "team" }) ∷ [];
  enforcement_mode = "idle";
}

abbrev pub db_rule : NamespaceRule
db_rule = record {
  match = record { name_pattern = "db-*"; labels = [] };
  managed = true;
  assign_labels = ("app", record { value = "db"; from_namespace_label = "" }) ∷ [];
  enforcement_mode = "full";
}

abbrev pub rules : List NamespaceRule
rules = db_rule ∷ web_rule ∷ []

-- A profile in the given provisioning mode that manages the namespace `shop` as app=web.
abbrev pub profile_in : String → ClusterProfile
profile_in mode = record {
  name = "main";
  uid = "u-1";
  generation = 1;
  spec = record {
    pce_connection_ref = record { name = "pce" };
    onboarding = record {
      mode = "create";
      container_cluster_name = "c1";
      credentials_output_secret = "out";
      node_pairing_profile = record { existing_name = ""; labels = []; enforcement_mode = "" };
    };
    provisioning_mode = mode;
    policy_scope_labels = [];
    unknown_label_mode = "strict";
    system_namespaces = record {
      manage = true;
      patterns = [];
      labels = ("app", "system") ∷ [];
      enforcement_mode = "";
    };
    namespace_rules = rules;
  };
  status = record {
    conditions = holding "Onboarded" ∷ [];
    container_cluster_href = "/cc/1";
    container_cluster_id = "1";
    managed_namespaces = 0;
    observed_generation = 1;
  };
}

abbrev pub connection : PceConnection
connection = record {
  name = "pce";
  generation = 1;
  spec = record {
    pce_url = "pce.example.com:8443";
    org_id = 1;
    credentials_secret_ref = record { name = "creds"; namespace = "ops" };
    external_data_set = "";
  };
  status = record { conditions = holding "Connected" ∷ []; observed_generation = 1 };
}

-- A cluster with one namespace, one profile and its connection, and the given policy resources.
abbrev pub memory_reader : String → List SegmentationIntent → Reader World
memory_reader mode intents = record {
  get_namespace = λ name w. if name == "shop" then (ok shop, w) else (err kube_not_found, w);
  list_namespaces = λ w. (ok (shop ∷ []), w);
  list_profiles = λ w. (ok (profile_in mode ∷ []), w);
  get_connection = λ name w. (ok connection, w);
  get_secret = λ namespace name w. (ok (("api_key", "k") ∷ ("api_secret", "s") ∷ []), w);
  list_intents = λ namespace w. (ok intents, w);
  list_policies = λ namespace w. (ok [], w);
}
