-- ===== src/Namespaces/Loop/Totals.antt =====
-- What the loop over the namespaces counts.
use mathlib.Core.Path.{subst}
use illumio_k8s_utility_oper.Prelude.{
  ◌≤◌, ◌≡◌, ◌≢◌, refl, false, Option, none, some, List, [], ◌∷◌, Option-cases, inl, inr, arith,
  eq_iff, ◌==◌, string_eq,
}
use illumio_k8s_utility_oper.Prelude.Dict.{Dict, lookup}
use illumio_k8s_utility_oper.Result.{Result, ok, err}
use illumio_k8s_utility_oper.Exec.{Exec, try, resume, ◌>>=◌}
use illumio_k8s_utility_oper.Exec.Errors.{Error}
use illumio_k8s_utility_oper.Exec.Yields.{
  Yields, Yields-pure, Yields-if, Yields-try, Yields-bind, Yields-weaken,
}
use illumio_k8s_utility_oper.Api.Meta.{Namespace}
use illumio_k8s_utility_oper.Api.Cluster.{Reader}
use illumio_k8s_utility_oper.Api.ClusterProfile.{ClusterProfile}
use illumio_k8s_utility_oper.Pce.Objects.{Owner}
use illumio_k8s_utility_oper.Namespaces.Cwp.{DesiredCwp}
use illumio_k8s_utility_oper.Namespaces.Update.{ContainerWorkloadProfile, BuiltUpdate, WithCache}
use illumio_k8s_utility_oper.Policy.Enforcement.{Effective}
use illumio_k8s_utility_oper.Policy.Profile.{desired_for}
use illumio_k8s_utility_oper.Namespaces.Loop.{
  CwpClient, CwpTotals, Tally, join_errors, by_namespace, nothing_done, totals_of, on_effective,
  raise_enforcement, on_updated, on_built, apply_profile, each_namespace, fresh_cache, on_cwps,
  on_namespaces, reconcile_namespace_cwps,
}
use illumio_k8s_utility_oper.Namespaces.Loop.Tallies.{
  one_if_managed, counts_managed, counts_pending, managed_among, pending_among, Adds,
  add_error-Adds, Adds-none, add_managed-Adds, add_pending-Adds, Adds-trans, Adds-after,
  one_if_same,
}

module _ {W : Type 0} (k8s : Reader W) (client : CwpClient W) (owner : Owner) where
  -- Raising the enforcement changes neither the counts nor whether the namespace is managed.
  abbrev Raised : DesiredCwp → Tally → DesiredCwp × Tally → Type 0
  Raised desired t raised = (raised.0.managed ≡ desired.managed) × Adds 0 0 t raised.1

  on_effective-Raised :
      (ns : Namespace) (desired : DesiredCwp) (t : Tally) (r : Result Error Effective)
      → Raised desired t (on_effective k8s client owner ns desired t r)
  unfolding on_effective
  on_effective-Raised ns desired t (ok e) = (refl, Adds-none t)
  on_effective-Raised ns desired t (err e) = (refl, add_error-Adds 0 _ t)

  raise_enforcement-Yields :
      (ns : Namespace) (desired : DesiredCwp) (t : Tally)
      → Yields (Raised desired t) (raise_enforcement k8s client owner ns desired t)
  unfolding raise_enforcement
  raise_enforcement-Yields ns desired t =
      Yields-if (Raised desired t) desired.managed _ _
        (λ _.
          Yields-bind (λ _. Unit {0}) (Raised desired t) _ _ (Yields-try _)
            (λ r _. Yields-pure (Raised desired t) _ (on_effective-Raised ns desired t r)))
        (λ _. Yields-pure (Raised desired t) (desired, t) (refl, Adds-none t))

  on_updated-Adds :
      (ns : Namespace) (desired : DesiredCwp) (t : Tally) (r : Result Error (Unit {0}))
      → Adds (one_if_managed desired) 0 t (on_updated k8s client owner ns desired t r)
  unfolding on_updated
  on_updated-Adds ns desired t (ok u) = add_managed-Adds desired t
  on_updated-Adds ns desired t (err e) = add_error-Adds (one_if_managed desired) _ t

  module _ (ns : Namespace) (desired : DesiredCwp) (t : Tally) where
    on_built-Yields :
        (cwp : ContainerWorkloadProfile) (r : Result Error BuiltUpdate)
        → Yields (Adds (one_if_managed desired) 0 t) (on_built k8s client owner ns cwp desired t r)
    unfolding on_built
    on_built-Yields cwp (err e) = Yields-pure _ _ (add_error-Adds (one_if_managed desired) _ t)
    on_built-Yields cwp (ok b) =
        let Goal = Adds (one_if_managed desired) 0 t in
        Yields-if Goal b.changed _ _
          (λ _.
            Yields-bind (λ _. Unit {0}) Goal _ _ (Yields-try _)
              (λ u _. Yields-pure Goal _ (on_updated-Adds ns desired t u)))
          (λ _. Yields-pure Goal _ (add_managed-Adds desired t))

    apply_profile-Yields :
        (o : Option ContainerWorkloadProfile)
        → Yields
            (Adds (counts_managed desired o) (counts_pending desired o) t)
            (apply_profile k8s client owner ns desired t o)
    unfolding apply_profile
    apply_profile-Yields none = Yields-pure _ _ (add_pending-Adds desired t)
    apply_profile-Yields (some cwp) =
        Yields-bind (λ _. Unit {0}) (Adds (one_if_managed desired) 0 t) _ _ (Yields-try _)
          (λ b _. on_built-Yields cwp b)

  one_namespace :
      (desired raised : DesiredCwp) (o : Option ContainerWorkloadProfile) (t t1 t2 : Tally)
      → raised.managed ≡ desired.managed
      → Adds 0 0 t t1
      → Adds (counts_managed raised o) (counts_pending raised o) t1 t2
      → Adds (counts_managed desired o) (counts_pending desired o) t t2
  one_namespace desired raised none t t1 t2 same first second =
      Adds-after 0 (one_if_managed desired) t t1 t2 first
        (subst (λ k. Adds 0 k t1 t2) (one_if_same raised desired same) second)
  one_namespace desired raised (some cwp) t t1 t2 same first second =
      Adds-after (one_if_managed desired) 0 t t1 t2 first
        (subst (λ k. Adds k 0 t1 t2) (one_if_same raised desired same) second)

  each_namespace-Yields :
      (cp : ClusterProfile) (by_ns : Dict ContainerWorkloadProfile) (namespaces : List Namespace)
      (t : Tally)
      → Yields
          (Adds (managed_among cp by_ns namespaces) (pending_among cp by_ns namespaces) t)
          (each_namespace k8s client owner cp by_ns namespaces t)
  unfolding each_namespace
  each_namespace-Yields cp by_ns [] t = Yields-pure (Adds 0 0 t) t (Adds-none t)
  each_namespace-Yields cp by_ns (ns ∷ rest) t =
      let desired = desired_for ns cp in
      let o = lookup ns.name by_ns in
      let Goal = Adds (managed_among cp by_ns (ns ∷ rest)) (pending_among cp by_ns (ns ∷ rest)) t in
      Yields-bind (Raised desired t) Goal _ _ (raise_enforcement-Yields ns desired t)
        (λ raised (same, first).
          Yields-bind (Adds (counts_managed raised.0 o) (counts_pending raised.0 o) raised.1) Goal _
            _ (apply_profile-Yields ns raised.0 raised.1 o)
            (λ t' second.
              Yields-weaken (Adds (managed_among cp by_ns rest) (pending_among cp by_ns rest) t')
                Goal _ (each_namespace-Yields cp by_ns rest t')
                (λ t''.
                  Adds-trans (counts_managed desired o) (managed_among cp by_ns rest)
                    (counts_pending desired o) (pending_among cp by_ns rest) t t' t''
                    (one_namespace desired raised.0 o t raised.1 t' same first second))))

  fresh_cache-Yields :
      {A : Type 0} (Q : A → Type 0) (m : Exec (WithCache W) A)
      → Yields Q m
      → Yields Q (fresh_cache k8s client owner m)
  unfolding fresh_cache
  fresh_cache-Yields Q m y = record { yield = λ w. y.yield (w, []) }

pub join_errors-none : (errors : List Error) → join_errors errors ≡ none → errors ≡ []
unfolding join_errors
join_errors-none [] h = refl
join_errors-none (e ∷ errors) h = elim (Option-cases (join_errors errors)) [
  | inl k ↦ cc (rw k at h)
  | inr (others, k) ↦ cc (rw k at h)
]

module _ {W : Type 0} (k8s : Reader W) (client : CwpClient W) (owner : Owner) where
  -- Exactly the managed namespaces without a profile in the PCE are pending. No more are managed than
  -- have one, and all of these if no error is reported.
  abbrev pub IsTotal :
      ClusterProfile → List ContainerWorkloadProfile → List Namespace → CwpTotals → Type 0
  IsTotal cp cwps namespaces r =
      let by_ns = by_namespace cwps [] in
      (r.pending ≡ pending_among cp by_ns namespaces)
      × (r.managed ≤ managed_among cp by_ns namespaces)
      × (r.failure ≡ none → r.managed ≡ managed_among cp by_ns namespaces)

  on_cwps-Yields :
      (cp : ClusterProfile) (namespaces : List Namespace) (cwps : List ContainerWorkloadProfile)
      → Yields (IsTotal cp cwps namespaces) (on_cwps k8s client owner cp namespaces (ok cwps))
  unfolding on_cwps
  on_cwps-Yields cp namespaces cwps =
      let by_ns = by_namespace cwps [] in
      let Counted =
        Adds (managed_among cp by_ns namespaces) (pending_among cp by_ns namespaces) nothing_done in
      Yields-bind Counted (IsTotal cp cwps namespaces) _ _
        (fresh_cache-Yields k8s client owner _ _
          (each_namespace-Yields k8s client owner cp by_ns namespaces nothing_done))
        (λ t (waits, le, exact). Yields-pure (IsTotal cp cwps namespaces) (totals_of t) (
          omega (arith, waits),
          omega (arith, le),
          λ h. omega (arith, (exact (join_errors-none t.errors h)).1),
        ))

  -- For a profile with a cluster, and for the namespaces and the profiles of the PCE that are listed, the
  -- loop always comes to totals, whatever fails for one namespace. Exactly the namespaces that the
  -- ClusterProfile manages and that have no profile in the PCE count as pending. Of those that have one,
  -- no more than there are count as managed, and all of them if no error is reported.
  pub reconcile_namespace_cwps-Yields :
      (cp : ClusterProfile) (namespaces : List Namespace) (cwps : List ContainerWorkloadProfile)
      (w w1 w2 : W)
      → cp.status.container_cluster_id ≢ ""
      → k8s.list_namespaces w ≡ (ok namespaces, w1)
      → client.list_profiles cp.status.container_cluster_id w1 ≡ (ok cwps, w2)
      → (r : CwpTotals) × ((reconcile_namespace_cwps k8s client owner cp w).0 ≡ ok r)
        × IsTotal cp cwps namespaces r
  unfolding reconcile_namespace_cwps on_namespaces ◌>>=◌ try
  reconcile_namespace_cwps-Yields cp namespaces cwps w w1 w2 onboarded listed profiled =
      let test : (cp.status.container_cluster_id == "") ≡ false =
        ground (arith, eq_iff cp.status.container_cluster_id "", onboarded) in
      rw (test)
        (rw (listed, resume) (rw (profiled, resume) ((on_cwps-Yields cp namespaces cwps).yield w2)))
