-- ===== src/Exec/Errors.antt =====
-- internal/pce/errors.go, and the errors that internal/controller makes and looks at. The texts of
-- errors that come from elsewhere are kept as they are.
use illumio_k8s_utility_oper.Prelude.{
  ℕ, String, Bool, true, false, ◌||◌, Option, none, some, ◌==◌, nat_eq,
}
use illumio_k8s_utility_oper.Prelude.Int.{ℤ}

-- `time.Duration`, in nanoseconds.
abbrev pub Duration : Type 0
Duration = ℤ

pub data Error : Type 0 where
  -- `ErrLabelNotFound`
  label_not_found : Error
  -- `APIError`
  api_error : ℕ → String → Error
  -- `RateLimitError`
  rate_limited : Duration → Error
  -- a failed HTTP exchange, or a body that cannot be decoded
  request_failed : String → Error
  -- `fmt.Errorf("...: %w", err)`
  wrapped : String → Error → Error
  -- `errors.Join` of the first and the others
  joined : Error → Error → Error
  -- `errRuleSetPendingDeletion`
  rule_set_pending_deletion : Error
  -- the error of reconcileRuleSet for a service that the PCE does not have
  service_not_found : String → Error
  -- the Kubernetes API's NotFound, and its other errors
  kube_not_found : Error
  kube_error : String → Error

-- `errors.Is(err, ErrLabelNotFound)`
unfoldable pub is_label_not_found : Error → Bool
is_label_not_found label_not_found = true
is_label_not_found (wrapped text e) = is_label_not_found e
is_label_not_found (joined e others) = is_label_not_found e || is_label_not_found others
is_label_not_found _ = false

-- `errors.Is(err, errRuleSetPendingDeletion)`
unfoldable pub is_pending_deletion : Error → Bool
is_pending_deletion rule_set_pending_deletion = true
is_pending_deletion (wrapped text e) = is_pending_deletion e
is_pending_deletion (joined e others) = is_pending_deletion e || is_pending_deletion others
is_pending_deletion _ = false

-- `IsNotFound`
unfoldable pub is_not_found : Error → Bool
is_not_found (api_error status body) = status == 404
is_not_found (wrapped text e) = is_not_found e
is_not_found (joined e others) = is_not_found e || is_not_found others
is_not_found _ = false

abbrev or_other {ℓ} : {A : Type ℓ} → Option A → Option A → Option A
or_other none o = o
or_other (some a) o = some a

-- `pceRateLimit`
unfoldable pub pce_rate_limit : Error → Option Duration
pce_rate_limit (rate_limited retry_after) = some retry_after
pce_rate_limit (wrapped text e) = pce_rate_limit e
pce_rate_limit (joined e others) = or_other (pce_rate_limit e) (pce_rate_limit others)
pce_rate_limit _ = none

-- `apierrors.IsNotFound`, which `client.IgnoreNotFound` uses.
unfoldable pub is_kube_not_found : Error → Bool
is_kube_not_found kube_not_found = true
is_kube_not_found (wrapped text e) = is_kube_not_found e
is_kube_not_found (joined e others) = is_kube_not_found e || is_kube_not_found others
is_kube_not_found _ = false
