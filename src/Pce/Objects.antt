-- ===== src/Pce/Objects.antt =====
-- The PCE's objects: internal/pce/labels.go, policy.go, cwp.go, pairingprofile.go and
-- containercluster.go. A pointer that may be nil is an `Option`.
use illumio_k8s_utility_oper.Prelude.{ℕ, String, Bool, Option, none, some, List}

pub record LabelRef : Type 0 where
  pub href : String

pub record Owner : Type 0 where
  pub data_set : String
  pub reference : String

pub record Label : Type 0 where
  pub href : String
  pub key : String
  pub value : String
  pub external_data_set : String
  pub external_data_reference : String

pub record RuleSetScope : Type 0 where
  pub label : LabelRef

pub record Actor : Type 0 where
  pub label : Option LabelRef
  pub actors : String

abbrev pub actor_all_workloads : String
actor_all_workloads = "ams"

abbrev pub all_workloads_actor : Actor
all_workloads_actor = record { label = none; actors = actor_all_workloads }

-- The actor literal `pce.Actor{Label: &pce.LabelRef{Href: href}}`.
abbrev pub label_actor : String → Actor
label_actor h = record { label = some (record { href = h }); actors = "" }

pub record IngressService : Type 0 where
  pub proto : ℕ
  pub port : ℕ
  pub href : String

pub record Service : Type 0 where
  pub href : String
  pub name : String

pub record ResolveLabelsAs : Type 0 where
  pub providers : List String
  pub consumers : List String

pub record RuleSet : Type 0 where
  pub href : String
  pub name : String
  pub enabled : Bool
  pub scopes : List (List RuleSetScope)
  pub external_data_set : String
  pub external_data_reference : String
  pub update_type : String

pub record SecRule : Type 0 where
  pub href : String
  pub enabled : Bool
  pub resolve_labels_as : ResolveLabelsAs
  pub providers : List Actor
  pub consumers : List Actor
  pub ingress_services : List IngressService
  pub unscoped_consumers : Bool

pub record ProvisionResult : Type 0 where
  pub href : String
  pub version : ℕ
  pub workloads_affected : ℕ

-- Owned by its name; the token is there only at the creation.
pub record ContainerCluster : Type 0 where
  pub href : String
  pub name : String
  pub description : String
  pub token : String

pub record PairingProfile : Type 0 where
  pub href : String
  pub name : String
  pub description : String
  pub enabled : Bool
  pub enforcement_mode : String
  pub visibility_level : String
  pub allowed_uses_per_key : String
  pub key_lifespan : String
  pub labels : List LabelRef
  pub external_data_set : String
  pub external_data_reference : String
