-- ===== src/Onboarding/Reports.antt =====
-- internal/controller/clusterprofile_controller.go: the status that a failed onboarding leaves.
use illumio_k8s_utility_oper.Prelude.{String, string_eq}
use illumio_k8s_utility_oper.Exec.{Exec, pure, raise, ◌>>=◌, ◌>>◌}
use illumio_k8s_utility_oper.Exec.Errors.{Error, Duration}
use illumio_k8s_utility_oper.Api.Meta.{ConditionApi, ConditionStatus, condition_false, Message}
use illumio_k8s_utility_oper.Api.ClusterProfile.{ClusterProfile}
use illumio_k8s_utility_oper.Policy.Controller.{ControlResult}
use illumio_k8s_utility_oper.Onboarding.{ProfileApi, Step, return}

abbrev pub put_status :
    ConditionApi → String → ConditionStatus → String → Message → ClusterProfile → ClusterProfile
put_status api kind status reason message cp = record cp {
  status = record cp.status {
    conditions = api.set_condition cp.status.conditions (record {
      kind = kind;
      status = status;
      reason = reason;
      message = message;
      observed_generation = 0;
    });
  };
}

abbrev pub put_observed : ClusterProfile → ClusterProfile
put_observed cp = record cp { status = record cp.status { observed_generation = cp.generation } }

module _ {W : Type 0} (objects : ProfileApi W) (api : ConditionApi) where
  unfoldable pub onboard_fail : ClusterProfile → String → Message → Duration → Exec W ControlResult
  onboard_fail cp reason message requeue = do
    objects.update_status
        (put_observed (put_status api "Onboarded" condition_false reason message cp))
    pure (record { requeue_after = requeue })

  -- The status, then the cause as the error.
  unfoldable pub onboard_error : {A : Type 0} → ClusterProfile → Message → Error → Exec W A
  onboard_error cp message cause = do
    objects.update_status
        (put_observed (put_status api "Onboarded" condition_false "OnboardFailed" message cp))
    raise cause

  unfoldable pub failing : ClusterProfile → String → Message → Duration → Exec W Step
  unfolding onboard_fail
  failing cp reason message requeue = do r ← onboard_fail cp reason message requeue; pure (return r)
