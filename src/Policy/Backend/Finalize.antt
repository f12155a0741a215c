-- ===== src/Policy/Backend/Finalize.antt =====
-- What FinalizePolicy leaves in the PCE. It can be repeated: a deletion that is pending is not requested
-- again, and an object that is gone is no error.
use illumio_k8s_utility_oper.Prelude.{String, ◌≡◌, true, Option, none, some, [], ◌∷◌, string_eq}
use illumio_k8s_utility_oper.Result.{Result, ok, err}
use illumio_k8s_utility_oper.Exec.Errors.{Error, is_not_found}
use illumio_k8s_utility_oper.Exec.Triple.{Triple}
use illumio_k8s_utility_oper.Api.Meta.{ConditionApi}
use illumio_k8s_utility_oper.Api.Cluster.{Reader}
use illumio_k8s_utility_oper.Api.Connection.{Config}
use illumio_k8s_utility_oper.Pce.Objects.{Owner, RuleSet}
use illumio_k8s_utility_oper.Pce.Interfaces.{PolicyClient}
use illumio_k8s_utility_oper.Policy.Draft.{rule_set_update_type_delete}
use illumio_k8s_utility_oper.Policy.Profile.{ReadyProfile}

-- The call succeeds, or the PCE answers that the object is gone.
abbrev pub IsTolerated : {A : Type 0} → Result Error A → Type 0
IsTolerated (ok a) = Unit
IsTolerated (err e) = is_not_found e ≡ true

module _ {W : Type 0} (Pending : String → W → Type 0) (Absent : W → Type 0) where
  abbrev pub Finds : Option RuleSet → W → Type 0
  Finds none w = Absent w
  Finds (some rs) w = rs.update_type ≡ rule_set_update_type_delete → Pending rs.href w

  -- What the PCE does with a deletion: it is pending in the draft until it is provisioned. A ruleset that
  -- is marked for deletion says so, and if none is found, none is there. A ruleset that is gone is taken
  -- for one whose deletion is pending.
  pub record DeletesByProvisioning (client : PolicyClient W) (owner : Owner) : Type 0 where
    pub finds : Triple (λ _. Unit {0}) Finds (λ _. Unit {0}) (client.find_rule_set_by_owner owner)
    pub deletes :
        (href : String) (w : W)
        → IsTolerated (client.delete_rule_set href w).0
        → Pending href (client.delete_rule_set href w).1
    pub provisions :
        (href text : String) (w : W)
        → Pending href w
        → IsTolerated (client.provision_rule_sets (href ∷ []) text w).0
        → Absent (client.provision_rule_sets (href ∷ []) text w).1

  module _ (k8s : Reader W) (api : ConditionApi) (factory : Config → PolicyClient W) where
    abbrev pub IsChosen : Option ReadyProfile → Type 0
    IsChosen none = ⊥
    IsChosen (some p) = Unit
