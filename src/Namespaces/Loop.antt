-- ===== src/Namespaces/Loop.antt =====
-- internal/controller/clusterprofile_controller.go, reconcileNamespaceCWPs: the loop that brings the
-- profile of every namespace to the desired state.
pub mod Tallies
pub mod Totals
pub mod Calls
pub mod Reported
use illumio_k8s_utility_oper.Prelude.{
  ℕ, suc, ◌+◌, String, ◌<>◌, Bool, true, false, Option, none, some, List, [], ◌∷◌, ◌++◌, ◌==◌,
  string_eq, if◌then◌else◌,
}
use illumio_k8s_utility_oper.Prelude.Dict.{Dict, lookup, insert}
use illumio_k8s_utility_oper.Result.{Result, ok, err}
use illumio_k8s_utility_oper.Exec.{Exec, pure, try, ◌>>=◌}
use illumio_k8s_utility_oper.Exec.Errors.{Error, wrapped, joined}
use illumio_k8s_utility_oper.Api.Meta.{Namespace}
use illumio_k8s_utility_oper.Api.Cluster.{Reader}
use illumio_k8s_utility_oper.Api.ClusterProfile.{ClusterProfile}
use illumio_k8s_utility_oper.Pce.Objects.{Owner}
use illumio_k8s_utility_oper.Namespaces.Cwp.{DesiredCwp}
use illumio_k8s_utility_oper.Namespaces.Update.{
  ContainerWorkloadProfile, CwpUpdate, EnsureLabel, BuiltUpdate, WithCache, uncached,
  build_cwp_update,
}
use illumio_k8s_utility_oper.Policy.Enforcement.{Effective, effective_enforcement}
use illumio_k8s_utility_oper.Policy.Profile.{desired_for}

-- The calls of `OnboardingClient` that the loop makes.
pub record CwpClient (W : Type 0) : Type 0 where
  pub ensure_label : EnsureLabel W
  pub list_profiles : String → Exec W (List ContainerWorkloadProfile)
  pub update_profile : String → CwpUpdate → Exec W (Unit {0})

-- The named results: the two counts, and the joined error.
pub record CwpTotals : Type 0 where
  pub managed : ℕ
  pub pending : ℕ
  pub failure : Option Error

-- The variables of the loop.
pub record Tally : Type 0 where
  pub managed : ℕ
  pub pending : ℕ
  pub errors : List Error

abbrev pub add_error : Error → Tally → Tally
add_error e t = record t { errors = t.errors ++ (e ∷ []) }

abbrev pub add_managed : DesiredCwp → Tally → Tally
add_managed desired t = if desired.managed then record t { managed = suc t.managed } else t

abbrev pub add_pending : DesiredCwp → Tally → Tally
add_pending desired t = if desired.managed then record t { pending = suc t.pending } else t

-- `errors.Join`
pub join_errors : List Error → Option Error
join_errors [] = none
join_errors (e ∷ errors) = elim (join_errors errors) [
  | none ↦ some e
  | some others ↦ some (joined e others)
]

-- `byNS`: the last profile of a namespace counts.
pub by_namespace :
    List ContainerWorkloadProfile → Dict ContainerWorkloadProfile → Dict ContainerWorkloadProfile
by_namespace [] found = found
by_namespace (c ∷ cwps) found =
    by_namespace cwps (if c.namespace == "" then found else insert c.namespace c found)

abbrev pub nothing_done : Tally
nothing_done = record { managed = 0; pending = 0; errors = [] }

abbrev pub totals_of : Tally → CwpTotals
totals_of t = record { managed = t.managed; pending = t.pending; failure = join_errors t.errors }

abbrev failed_totals : Error → CwpTotals
failed_totals e = record { managed = 0; pending = 0; failure = some e }

module _ {W : Type 0} (k8s : Reader W) (client : CwpClient W) (owner : Owner) where
  on_effective : Namespace → DesiredCwp → Tally → Result Error Effective → DesiredCwp × Tally
  on_effective ns desired t (ok e) = (record desired { enforcement_mode = e.mode }, t)
  on_effective ns desired t (err e) =
      (desired, add_error (wrapped ("namespace " <> ns.name <> ": effective enforcement") e) t)

  -- The strictest mode that a policy in the namespace asks for.
  raise_enforcement : Namespace → DesiredCwp → Tally → Exec (WithCache W) (DesiredCwp × Tally)
  unfolding on_effective
  raise_enforcement ns desired t =
      if desired.managed
      then (do
        e ← try (uncached (effective_enforcement k8s ns.name desired.enforcement_mode))
        pure (on_effective ns desired t e))
      else pure (desired, t)

  on_updated : Namespace → DesiredCwp → Tally → Result Error (Unit {0}) → Tally
  on_updated ns desired t (ok u) = add_managed desired t
  on_updated ns desired t (err e) = add_error (wrapped ("namespace " <> ns.name) e) t

  on_built :
      Namespace
      → ContainerWorkloadProfile
      → DesiredCwp
      → Tally
      → Result Error BuiltUpdate
      → Exec (WithCache W) Tally
  unfolding on_updated
  on_built ns cwp desired t (err e) = pure (add_error (wrapped ("namespace " <> ns.name) e) t)
  on_built ns cwp desired t (ok b) =
      if b.changed
      then (do
        u ← try (uncached (client.update_profile cwp.href b.update))
        pure (on_updated ns desired t u))
      else pure (add_managed desired t)

  apply_profile :
      Namespace → DesiredCwp → Tally → Option ContainerWorkloadProfile → Exec (WithCache W) Tally
  unfolding on_built
  apply_profile ns desired t none = pure (add_pending desired t)
  apply_profile ns desired t (some cwp) = do
    b ← try (build_cwp_update client.ensure_label owner cwp desired)
    on_built ns cwp desired t b

  each_namespace :
      ClusterProfile
      → Dict ContainerWorkloadProfile
      → List Namespace
      → Tally
      → Exec (WithCache W) Tally
  unfolding raise_enforcement apply_profile
  each_namespace cp by_ns [] t = pure t
  each_namespace cp by_ns (ns ∷ rest) t = do
    raised ← raise_enforcement ns (desired_for ns cp) t
    t' ← apply_profile ns raised.0 raised.1 (lookup ns.name by_ns)
    each_namespace cp by_ns rest t'

  -- The cache starts empty, and ends with the loop.
  fresh_cache : {A : Type 0} → Exec (WithCache W) A → Exec W A
  fresh_cache m w = let (r, (w', cache)) = m (w, []) in (r, w')

  on_cwps :
      ClusterProfile
      → List Namespace
      → Result Error (List ContainerWorkloadProfile)
      → Exec W CwpTotals
  unfolding each_namespace fresh_cache
  on_cwps cp namespaces (err e) = pure (failed_totals e)
  on_cwps cp namespaces (ok cwps) = do
    t ← fresh_cache (each_namespace cp (by_namespace cwps []) namespaces nothing_done)
    pure (totals_of t)

  on_namespaces : ClusterProfile → Result Error (List Namespace) → Exec W CwpTotals
  unfolding on_cwps
  on_namespaces cp (err e) = pure (failed_totals e)
  on_namespaces cp (ok namespaces) = do
    cwps ← try (client.list_profiles cp.status.container_cluster_id)
    on_cwps cp namespaces cwps

  unfoldable pub reconcile_namespace_cwps : ClusterProfile → Exec W CwpTotals
  unfolding on_namespaces
  reconcile_namespace_cwps cp =
      if cp.status.container_cluster_id == ""
      then pure (totals_of nothing_done)
      else do namespaces ← try k8s.list_namespaces; on_namespaces cp namespaces
