-- ===== src/Namespaces/Loop/Reported.antt =====
-- The loop over the namespaces reports every update that fails.
use illumio_k8s_utility_oper.Prelude.{
  ◌≡◌, refl, sym, ◌∙◌, String, Option, none, some, List, [], ◌∷◌, ◌==◌, string_eq, Bool-cases, inl,
  inr,
}
use illumio_k8s_utility_oper.Prelude.Dict.{Dict, lookup}
use illumio_k8s_utility_oper.Result.{Result, ok, err}
use illumio_k8s_utility_oper.Exec.{Exec, try}
use illumio_k8s_utility_oper.Exec.Errors.{Error}
use illumio_k8s_utility_oper.Exec.Frame.{Keeps, Keeps-bind, Keeps-pure}
use illumio_k8s_utility_oper.Exec.Triple.{Any, Ends, Triple, Triple-pure, Triple-if, Triple-bind}
use illumio_k8s_utility_oper.Api.Meta.{Namespace}
use illumio_k8s_utility_oper.Api.Cluster.{Reader}
use illumio_k8s_utility_oper.Api.ClusterProfile.{ClusterProfile}
use illumio_k8s_utility_oper.Pce.Objects.{Owner}
use illumio_k8s_utility_oper.Namespaces.Cwp.{DesiredCwp}
use illumio_k8s_utility_oper.Namespaces.Update.{
  ContainerWorkloadProfile, CwpUpdate, BuiltUpdate, WithCache, uncached,
}
use illumio_k8s_utility_oper.Policy.Enforcement.{Effective, effective_enforcement}
use illumio_k8s_utility_oper.Policy.Profile.{desired_for}
use illumio_k8s_utility_oper.Policy.Profile.Choice.{KeepsReads}
use illumio_k8s_utility_oper.Namespaces.Loop.{
  CwpClient, CwpTotals, Tally, add_managed, add_pending, by_namespace, nothing_done, totals_of,
  on_effective, raise_enforcement, on_updated, on_built, apply_profile, each_namespace, fresh_cache,
  on_cwps, on_namespaces, reconcile_namespace_cwps,
}
use illumio_k8s_utility_oper.Namespaces.Loop.Tallies.{append-ne-nil}
use illumio_k8s_utility_oper.Namespaces.Loop.Totals.{join_errors-none}
use illumio_k8s_utility_oper.Namespaces.Loop.Calls.{
  KeepsCwps, Beside, uncached-Keeps, build_cwp_update-Keeps,
}

-- Every call keeps the property, an update only if it succeeds.
pub record KeepsUnlessFailed {W : Type 0} (k8s : Reader W) (client : CwpClient W) (P : W → Type 0)
    : Type 0 where
  pub reads : KeepsReads k8s P
  pub namespaces : Keeps P k8s.list_namespaces
  pub ensures : (key value : String) (owner : Owner) → Keeps P (client.ensure_label key value owner)
  pub lists : (cluster : String) → Keeps P (client.list_profiles cluster)
  pub updates :
      (href : String) (u : CwpUpdate)
      → Triple P (λ _. P) (λ _. Unit {0}) (client.update_profile href u)

add_managed-errors : (desired : DesiredCwp) (t : Tally) → (add_managed desired t).errors ≡ t.errors
add_managed-errors desired t = elim (Bool-cases desired.managed) [
  | inl h ↦ rw h refl
  | inr h ↦ rw h refl
]

add_pending-errors : (desired : DesiredCwp) (t : Tally) → (add_pending desired t).errors ≡ t.errors
add_pending-errors desired t = elim (Bool-cases desired.managed) [
  | inl h ↦ rw h refl
  | inr h ↦ rw h refl
]

module _ {W : Type 0} (k8s : Reader W) (client : CwpClient W) (owner : Owner) (P : W → Type 0)
    (calls : KeepsUnlessFailed k8s client P) where
  -- The same calls without the updates.
  silent : CwpClient W
  silent = record client { update_profile = λ href u w. (ok tt, w) }

  silent-Keeps : KeepsCwps k8s silent P
  unfolding silent
  silent-Keeps = record {
    reads = calls.reads;
    namespaces = calls.namespaces;
    ensures = calls.ensures;
    lists = calls.lists;
    updates = λ href u. record { holds = λ w h. h };
  }

  -- As long as no error has been collected, the property holds.
  abbrev Sound : Tally → WithCache W → Type 0
  Sound t s = t.errors ≡ [] → P s.0

  Sound-try :
      {A : Type 0} (t : Tally) (m : Exec (WithCache W) A)
      → Keeps (Beside P) m
      → Triple (Sound t) (λ _. Sound t) Any (try m)
  unfolding try
  Sound-try t m k = record { run = λ s h e. k.holds s (h e) }

  effective-Sound :
      (ns : Namespace) (desired : DesiredCwp) (t : Tally) (r : Result Error Effective)
      (s : WithCache W)
      → Sound t s
      → Sound (on_effective k8s client owner ns desired t r).1 s
  unfolding on_effective
  effective-Sound ns desired t (ok e) s h = h
  effective-Sound ns desired t (err e) s h = λ z. absurd (append-ne-nil t.errors _ z)

  raise_enforcement-Sound :
      (ns : Namespace) (desired : DesiredCwp) (t : Tally)
      → Triple
          (Sound t)
          (λ raised. Sound raised.1)
          Any
          (raise_enforcement k8s client owner ns desired t)
  unfolding raise_enforcement effective_enforcement
  raise_enforcement-Sound ns desired t =
      Triple-if _ _ _ desired.managed _ _
        (λ _.
          Triple-bind _ (λ r. Sound t) _ _ _ _
            (Sound-try t _ (
              uncached-Keeps P _ (
                Keeps-bind _ _ (calls.reads.intents _)
                  λ i. Keeps-bind _ _ (calls.reads.policies _) λ p. Keeps-pure _)))
            (λ r. Triple-pure _ _ _ _ λ s h. effective-Sound ns desired t r s h))
        (λ _. Triple-pure _ _ _ (desired, t) λ s h. h)

  module _ (ns : Namespace) (desired : DesiredCwp) (t : Tally) where
    managed-Sound : (s : WithCache W) → Sound t s → Sound (add_managed desired t) s
    managed-Sound s h = rw (add_managed-errors desired t) h

    updated-Sound :
        (r : Result Error (Unit {0}) × W)
        → (t.errors ≡ [] → Ends (λ _. P) (λ _. Unit {0}) r)
        → (on_updated k8s client owner ns desired t r.0).errors ≡ []
        → P r.1
    unfolding on_updated
    updated-Sound (ok u, w) h z = h (sym (add_managed-errors desired t) ∙ z)
    updated-Sound (err e, w) h z = absurd (append-ne-nil t.errors _ z)

    on_built-Sound :
        (cwp : ContainerWorkloadProfile) (r : Result Error BuiltUpdate)
        → Triple (Sound t) Sound Any (on_built k8s client owner ns cwp desired t r)
    unfolding on_built try uncached
    on_built-Sound cwp (err e) = Triple-pure _ _ _ _ λ s h z. absurd (append-ne-nil t.errors _ z)
    on_built-Sound cwp (ok b) =
        Triple-if _ _ _ b.changed _ _
          (λ _.
            Triple-bind _ (λ u. Sound (on_updated k8s client owner ns desired t u)) _ _ _ _
              (record {
                run = λ s h.
                    updated-Sound (client.update_profile cwp.href b.update s.0)
                      (λ z. (calls.updates cwp.href b.update).run s.0 (h z));
              })
              (λ u. Triple-pure _ _ _ _ λ s h. h))
          (λ _. Triple-pure _ _ _ _ managed-Sound)

    apply_profile-Sound :
        (o : Option ContainerWorkloadProfile)
        → Triple (Sound t) Sound Any (apply_profile k8s client owner ns desired t o)
    unfolding apply_profile silent
    apply_profile-Sound none = Triple-pure _ _ _ _ λ s h. rw (add_pending-errors desired t) h
    apply_profile-Sound (some cwp) =
        Triple-bind _ (λ r. Sound t) _ _ _ _
          (Sound-try t _ (build_cwp_update-Keeps k8s silent owner P silent-Keeps cwp desired))
          (on_built-Sound cwp)

  each_namespace-Sound :
      (cp : ClusterProfile) (by_ns : Dict ContainerWorkloadProfile) (namespaces : List Namespace)
      (t : Tally)
      → Triple (Sound t) Sound Any (each_namespace k8s client owner cp by_ns namespaces t)
  unfolding each_namespace
  each_namespace-Sound cp by_ns [] t = Triple-pure _ _ _ t λ s h. h
  each_namespace-Sound cp by_ns (ns ∷ rest) t =
      Triple-bind _ (λ raised. Sound raised.1) _ _ _ _
        (raise_enforcement-Sound ns (desired_for ns cp) t)
        (λ raised.
          Triple-bind _ Sound _ _ _ _
            (apply_profile-Sound ns raised.0 raised.1 (lookup ns.name by_ns))
            (each_namespace-Sound cp by_ns rest))

  -- What the totals without a reported error say of the state.
  abbrev pub Reports : CwpTotals → W → Type 0
  Reports r w = r.failure ≡ none → P w

  loop-Ends :
      (r : Result Error Tally × WithCache W)
      → Ends Sound Any r
      → Ends (λ t w. t.errors ≡ [] → P w) Any (r.0, r.1.0)
  loop-Ends (ok t, s) h = h
  loop-Ends (err e, s) h = tt

  on_cwps-Reports :
      (cp : ClusterProfile) (namespaces : List Namespace)
      (r : Result Error (List ContainerWorkloadProfile))
      → Triple P Reports Any (on_cwps k8s client owner cp namespaces r)
  unfolding on_cwps fresh_cache
  on_cwps-Reports cp namespaces (err e) = Triple-pure _ _ _ _ λ w h z. cc z
  on_cwps-Reports cp namespaces (ok cwps) =
      Triple-bind _ (λ (t : Tally) w. t.errors ≡ [] → P w) _ _ _ _
        (record {
          run = λ w h.
              let loop =
                each_namespace k8s client owner cp (by_namespace cwps []) namespaces nothing_done in
              loop-Ends (loop (w, [])) (
                (each_namespace-Sound cp (by_namespace cwps []) namespaces nothing_done).run (w, [])
                  (λ z. h));
        })
        (λ t. Triple-pure _ _ _ (totals_of t) λ w h z. h (join_errors-none t.errors z))

  on_namespaces-Reports :
      (cp : ClusterProfile) (r : Result Error (List Namespace))
      → Triple P Reports Any (on_namespaces k8s client owner cp r)
  unfolding on_namespaces try
  on_namespaces-Reports cp (err e) = Triple-pure _ _ _ _ λ w h z. cc z
  on_namespaces-Reports cp (ok namespaces) =
      Triple-bind _ (λ r. P) _ _ _ _
        (record { run = λ w h. (calls.lists cp.status.container_cluster_id).holds w h })
        (on_cwps-Reports cp namespaces)

  -- If the loop over the namespaces reports no error, every update that it made has succeeded: a property
  -- that the updates keep if they succeed, and the other calls always, is kept. So no failed update is
  -- passed over.
  pub reconcile_namespace_cwps-Reports :
      (cp : ClusterProfile) → Triple P Reports Any (reconcile_namespace_cwps k8s client owner cp)
  unfolding reconcile_namespace_cwps try
  reconcile_namespace_cwps-Reports cp =
      Triple-if _ _ _ (cp.status.container_cluster_id == "") _ _
        (λ _. Triple-pure _ _ _ _ λ w h z. h)
        (λ _.
          Triple-bind _ (λ r. P) _ _ _ _ (record { run = λ w h. calls.namespaces.holds w h })
            (on_namespaces-Reports cp))
