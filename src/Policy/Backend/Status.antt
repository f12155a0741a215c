-- ===== src/Policy/Backend/Status.antt =====
-- What a result of the backend leaves in the conditions of a resource.
use illumio_k8s_utility_oper.Prelude.{
  String, ◌≡◌, ◌≢◌, refl, ◌∙◌, Option, none, some, List, arith, eq_iff,
}
use illumio_k8s_utility_oper.Api.Meta.{ConditionApi, Condition, IsLawful}
use illumio_k8s_utility_oper.Policy.Backend.{
  BackendCondition, BackendResult, put_condition, apply_backend_result,
}

-- A condition of the result replaces the one of its type; without one, the old one stays.
abbrev pub replaced : String → Option BackendCondition → Option Condition → Option Condition
replaced kind none old = old
replaced kind (some c) old = some (record {
  kind = kind;
  status = c.status;
  reason = c.reason;
  message = c.message;
  observed_generation = 0;
})

module _ (api : ConditionApi) (lawful : IsLawful api) where
  find-put_condition_self :
      (kind : String) (o : Option BackendCondition) (conds : List Condition)
      → api.find_condition (put_condition api kind o conds) kind
        ≡ replaced kind o (api.find_condition conds kind)
  find-put_condition_self kind none conds = refl
  find-put_condition_self kind (some c) conds = lawful.find-set_self conds _

  find-put_condition_ne :
      (kind : String) (o : Option BackendCondition) (conds : List Condition) (other : String)
      → other ≢ kind
      → api.find_condition (put_condition api kind o conds) other ≡ api.find_condition conds other
  find-put_condition_ne kind none conds other ne = refl
  find-put_condition_ne kind (some c) conds other ne = lawful.find-set_ne conds _ other ne

  -- With condition functions that do what they document: the Ready and Provisioned conditions are those
  -- of the result, an absent one of which leaves the old condition, and no other condition changes.
  pub apply_backend_result_lem :
      (conds : List Condition) (res : BackendResult)
      → let after = apply_backend_result api conds res in
        (api.find_condition after "Ready"
          ≡ replaced "Ready" res.ready (api.find_condition conds "Ready"))
        × (api.find_condition after "Provisioned"
            ≡ replaced "Provisioned" res.provisioned (api.find_condition conds "Provisioned"))
        × ((kind : String)
            → kind ≢ "Ready"
            → kind ≢ "Provisioned"
            → api.find_condition after kind ≡ api.find_condition conds kind)
  unfolding apply_backend_result
  apply_backend_result_lem conds res =
      let inner = put_condition api "Ready" res.ready conds in
      (
        find-put_condition_ne "Provisioned" res.provisioned inner "Ready"
              (ground (arith, eq_iff "Ready" "Provisioned"))
            ∙ find-put_condition_self "Ready" res.ready conds,
        find-put_condition_self "Provisioned" res.provisioned inner
            ∙ rw (
                find-put_condition_ne "Ready" res.ready conds "Provisioned"
                  (ground (arith, eq_iff "Ready" "Provisioned"))),
        λ kind n1 n2.
            find-put_condition_ne "Provisioned" res.provisioned inner kind n2
            ∙ find-put_condition_ne "Ready" res.ready conds kind n1,
      )
