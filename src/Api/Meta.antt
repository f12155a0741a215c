-- ===== src/Api/Meta.antt =====
-- What the program uses of k8s.io/apimachinery: conditions, object metadata, and the three condition
-- functions, which are parameters.
use illumio_k8s_utility_oper.Prelude.{
  ℕ, String, ◌≡◌, ◌≢◌, Bool, Option, none, some, List, string_eq,
}
use illumio_k8s_utility_oper.Prelude.Dict.{Labels}
use illumio_k8s_utility_oper.Exec.Errors.{Error}

pub data ConditionStatus : Type 0 where
  condition_true condition_false condition_unknown : ConditionStatus

-- The texts that the controllers put into conditions: a text, or a format with the values that it
-- prints.
pub data Message : Type 0 where
  text : String → Message
  about_labels : String → List String → Message
  about_label : String → String → String → Message
  about_count : String → ℕ → Message
  about_counts : String → List ℕ → Message
  about_text : String → String → Message
  about_place : String → ℕ → ℕ → Message
  about_error : String → Error → Message
  about_named_error : String → String → Error → Message

pub record Condition : Type 0 where
  pub kind : String
  pub status : ConditionStatus
  pub reason : String
  pub message : Message
  pub observed_generation : ℕ

-- `meta.SetStatusCondition`, `meta.FindStatusCondition` and `meta.IsStatusConditionTrue`.
pub record ConditionApi : Type 0 where
  pub set_condition : List Condition → Condition → List Condition
  pub find_condition : List Condition → String → Option Condition
  pub is_condition_true : List Condition → String → Bool

abbrev pub is_true_status : Option Condition → Bool
is_true_status none = Bool.false
is_true_status (some c) = elim c.status [ condition_true ↦ Bool.true | _ ↦ Bool.false ]

-- Their documented behaviour: setting replaces the condition of the same type and no other.
pub record IsLawful (api : ConditionApi) : Type 0 where
  pub find-set_self :
      (cs : List Condition) (c : Condition)
      → api.find_condition (api.set_condition cs c) c.kind ≡ some c
  pub find-set_ne :
      (cs : List Condition) (c : Condition) (kind : String)
      → kind ≢ c.kind
      → api.find_condition (api.set_condition cs c) kind ≡ api.find_condition cs kind
  pub is_condition_true_lem :
      (cs : List Condition) (kind : String)
      → api.is_condition_true cs kind ≡ is_true_status (api.find_condition cs kind)

-- `corev1.Namespace`, as far as it is read.
pub record Namespace : Type 0 where
  pub name : String
  pub labels : Labels
  pub annotations : Labels

-- `metav1.ObjectMeta`, as far as it is read: `deleting` says that the deletion timestamp is set.
pub record ObjectMeta : Type 0 where
  pub name : String
  pub namespace : String
  pub uid : String
  pub generation : ℕ
  pub annotations : Labels
  pub deleting : Bool
  pub finalizers : List String
