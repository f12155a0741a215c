-- ===== src/RuleView/Sync.antt =====
-- internal/controller/ruleview_controller.go: the reconciler of a RuleView.
pub mod Cadence
use illumio_k8s_utility_oper.Prelude.{
  ℕ, String, Bool, true, false, ◌&&◌, Option, none, some, List, [], ◌∷◌, length, leb, ◌==◌, nat_eq,
  string_eq, if◌then◌else◌,
}
use illumio_k8s_utility_oper.Prelude.Int.{
  ℤ, pos, negsuc, ◌-ℤ◌, ltb_ℤ, leb_ℤ, wrap_int64, times_int64, clamp_int64,
}
use illumio_k8s_utility_oper.Prelude.Order.{Sorter}
use illumio_k8s_utility_oper.Prelude.Dict.{get}
use illumio_k8s_utility_oper.Result.{Result, ok, err}
use illumio_k8s_utility_oper.Exec.{Exec, pure, raise, try, ◌>>=◌, ◌>>◌}
use illumio_k8s_utility_oper.Exec.Errors.{Error, Duration, is_kube_not_found}
use illumio_k8s_utility_oper.Api.Meta.{
  ConditionApi, ConditionStatus, condition_true, condition_false, Message, text, about_counts,
  about_error,
}
use illumio_k8s_utility_oper.Api.Cluster.{Reader}
use illumio_k8s_utility_oper.Api.Connection.{Config}
use illumio_k8s_utility_oper.Api.Insight.{Time, annotation_refresh}
use illumio_k8s_utility_oper.Api.RuleView.{RuleView, RuleViewStatus}
use illumio_k8s_utility_oper.Pce.Objects.{Label}
use illumio_k8s_utility_oper.Pce.RuleSearch.{RuleSearchQuery, FoundRule}
use illumio_k8s_utility_oper.Policy.Controller.{ControlResult, done, ResourceApi}
use illumio_k8s_utility_oper.Policy.Profile.{Connected}
use illumio_k8s_utility_oper.Insight.Scope.{
  Prepared, gone, refused, scoped, Refusals, pce_fail_reason, prepare,
}
use illumio_k8s_utility_oper.Insight.Request.{positive_or, is_set}
use illumio_k8s_utility_oper.RuleView.{MappedRules, map_rules}

-- `RuleViewClient`
pub record RuleViewClient (W : Type 0) : Type 0 where
  pub find_label : String → String → Exec W Label
  pub search_rules : RuleSearchQuery → Exec W (List FoundRule)

abbrev pub minute : ℕ
minute = 60000000000

-- `time.Duration(rv.Spec.RefreshIntervalMinutes) * time.Minute`, or five minutes.
unfoldable pub interval_of : RuleView → Duration
interval_of rv =
    let interval = times_int64 rv.spec.refresh_interval_minutes minute in
    if leb_ℤ interval (pos 0) then pos 300000000000 else interval

-- `Sub` of times and of durations.
abbrev pub elapsed_since : Time → Time → Duration
elapsed_since now at = clamp_int64 (now -ℤ at)

abbrev pub view_refusals : Refusals
view_refusals = record {
  not_ready = text "no Onboarded ClusterProfile / connected PCEConnection for this namespace";
  no_scope = text "namespace is not managed or has no scope labels (app/env)";
}

module _ {W : Type 0} (sorter : Sorter) (max_rules : ℤ) (now : W → Time)
    (objects : ResourceApi W RuleView) (k8s : Reader W) (api : ConditionApi)
    (factory : Config → RuleViewClient W) where
  abbrev refresh_of_view : RuleView → String
  refresh_of_view rv = get rv.meta.annotations annotation_refresh

  -- The status is of this generation and refresh token, and has a Ready condition.
  abbrev pub is_current : RuleView → Bool
  is_current rv =
      rv.status.observed_generation == rv.meta.generation
      && (rv.status.observed_refresh == refresh_of_view rv
          && is_set (api.find_condition rv.status.conditions "Ready"))

  -- The time that is left until the next sync, if it is not due.
  unfoldable pub remaining : RuleView → Time → Option Duration
  remaining rv t =
      let current = is_current rv in
      elim rv.status.observed_at [
        | none ↦ none
        | some at ↦
            if current && ltb_ℤ (elapsed_since t at) (interval_of rv)
            then some (wrap_int64 (interval_of rv -ℤ elapsed_since t at))
            else none
      ]

  abbrev put_synced : ConditionStatus → String → Message → Time → RuleView → RuleView
  put_synced status reason message t rv = record rv {
    status = record rv.status {
      observed_at = some t;
      conditions = api.set_condition rv.status.conditions (record {
        kind = "Ready";
        status = status;
        reason = reason;
        message = message;
        observed_generation = 0;
      });
      observed_generation = rv.meta.generation;
      observed_refresh = refresh_of_view rv;
    };
  }

  put_rules : List FoundRule → MappedRules → RuleView → RuleView
  put_rules found m rv = record rv {
    status = record rv.status {
      rule_count = length found;
      owned_count = m.owned;
      external_count = m.external;
      truncated = m.truncated;
      rules = m.rules;
    };
  }

  write_view : RuleView → RuleView → Exec W ControlResult
  write_view rv written = do
    objects.update_status written
    pure (record { requeue_after = interval_of rv })

  fail_view : RuleView → String → Message → Exec W ControlResult
  unfolding write_view
  fail_view rv reason message w =
      write_view rv (put_synced condition_false reason message (now w) rv) w

  on_search : RuleView → Connected → Result Error (List FoundRule) → Exec W ControlResult
  unfolding fail_view write_view put_rules
  on_search rv c (err e) = fail_view rv (pce_fail_reason e) (about_error "rule search: %s" e)
  on_search rv c (ok found) = λ w.
      let m = map_rules sorter found c.external_data_set (pos (positive_or 200 max_rules)) in
      write_view rv
        (put_synced condition_true "Synced"
          (about_counts "%d rules protect this app (%d owned, %d external)"
            (length found ∷ m.owned ∷ m.external ∷ []))
          (now w) (put_rules found m rv))
        w

  on_prepared_view : RuleView → Prepared → Exec W ControlResult
  unfolding fail_view on_search
  on_prepared_view rv gone = pure done
  on_prepared_view rv (refused reason message) = fail_view rv reason message
  on_prepared_view rv (scoped c hrefs) = do
    r ← try (
        (factory c.config).search_rules
          (record { provider_label_hrefs = hrefs; policy_version = rv.spec.policy_version }))
    on_search rv c r

  sync : RuleView → Exec W ControlResult
  unfolding on_prepared_view
  sync rv = do
    p ← prepare (λ cfg. (factory cfg).find_label) k8s api view_refusals rv.meta.namespace
    on_prepared_view rv p

  on_view : RuleView → Exec W ControlResult
  unfolding sync
  on_view rv w = elim (remaining rv (now w)) [
    | some d ↦ pure (record { requeue_after = d }) w
    | none ↦ sync rv w
  ]

  unfoldable pub reconcile_view : String → String → Exec W ControlResult
  unfolding on_view
  reconcile_view namespace name = do
    r ← try (objects.get namespace name)
    elim r [ err e ↦ if is_kube_not_found e then pure done else raise e | ok rv ↦ on_view rv ]
