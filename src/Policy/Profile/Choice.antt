-- ===== src/Policy/Profile/Choice.antt =====
-- The profile that resolveClusterProfile chooses, and the calls that it makes.
use illumio_k8s_utility_oper.Prelude.{
  String, ◌≡◌, true, not, Option, none, some, List, [], ◌∷◌, All, Bool-cases, inl, inr,
}
use illumio_k8s_utility_oper.Result.{Result, ok, err}
use illumio_k8s_utility_oper.Exec.Errors.{Error, is_kube_not_found}
use illumio_k8s_utility_oper.Exec.Value.{
  Returns, Returns-pure, Returns-raise, Returns-if, Returns-weaken, Returns-bind, Returns-after,
  OnOk, Returns-try,
}
use illumio_k8s_utility_oper.Exec.Frame.{
  Keeps, Keeps-pure, Keeps-raise, Keeps-try, Keeps-if, Keeps-bind,
}
use illumio_k8s_utility_oper.Api.Meta.{ConditionApi, Namespace}
use illumio_k8s_utility_oper.Api.Cluster.{Reader, Secret}
use illumio_k8s_utility_oper.Api.ClusterProfile.{ClusterProfile}
use illumio_k8s_utility_oper.Api.Connection.{PceConnection, PceConnectionSpec}
use illumio_k8s_utility_oper.Policy.Profile.{
  Connected, ReadyProfile, desired_for, found, with_secret, with_connection, resolve_connection,
  ready_with, try_profile, first_profile, among_profiles, resolve_cluster_profile,
}

abbrev pub OnSome : {A : Type 0} → (A → Type 0) → Option A → Type 0
OnSome Q none = Unit
OnSome Q (some a) = Q a

-- The reads of the cluster, and what they keep.
pub record KeepsReads {W : Type 0} (k8s : Reader W) (P : W → Type 0) : Type 0 where
  pub namespace : (name : String) → Keeps P (k8s.get_namespace name)
  pub profiles : Keeps P k8s.list_profiles
  pub connection : (name : String) → Keeps P (k8s.get_connection name)
  pub secret : (namespace name : String) → Keeps P (k8s.get_secret namespace name)
  pub intents : (namespace : String) → Keeps P (k8s.list_intents namespace)
  pub policies : (namespace : String) → Keeps P (k8s.list_policies namespace)

module _ {W : Type 0} (k8s : Reader W) (api : ConditionApi) where
  -- A profile is chosen only if it is onboarded and manages the namespace.
  abbrev pub Serves : (ClusterProfile → Type 0) → Namespace → ReadyProfile → Type 0
  Serves Q ns p =
      (api.is_condition_true p.profile.status.conditions "Onboarded" ≡ true)
      × ((desired_for ns p.profile).managed ≡ true)
      × Q p.profile

  module _ (Q : ClusterProfile → Type 0) (ns : Namespace) where
    ready_with-Serves :
        (cp : ClusterProfile) (c : Option Connected)
        → (api.is_condition_true cp.status.conditions "Onboarded" ≡ true)
          × ((desired_for ns cp).managed ≡ true)
          × Q cp
        → OnSome (Serves Q ns) (ready_with k8s api cp c)
    unfolding ready_with
    ready_with-Serves cp none h = tt
    ready_with-Serves cp (some c) h = h

    try_profile-Serves :
        (cp : ClusterProfile) → Q cp → Returns (OnSome (Serves Q ns)) (try_profile k8s api ns cp)
    unfolding try_profile
    try_profile-Serves cp q =
        elim (Bool-cases (api.is_condition_true cp.status.conditions "Onboarded")) [
          | inr off ↦ rw off (Returns-pure _ _ tt)
          | inl on ↦ rw on (elim (Bool-cases (desired_for ns cp).managed) [
            | inr unmanaged ↦ rw unmanaged (Returns-pure _ _ tt)
            | inl managed ↦ rw managed (
                Returns-after _ _ _ λ c. Returns-pure _ _ (ready_with-Serves cp c (on, managed, q)))
          ])
        ]

    first_profile-Serves :
        (l : List ClusterProfile)
        → All Q l
        → Returns (OnSome (Serves Q ns)) (first_profile k8s api ns l)
    unfolding first_profile
    first_profile-Serves [] h = Returns-pure _ _ tt
    first_profile-Serves (cp ∷ l) h =
        Returns-bind (OnSome (Serves Q ns)) _ _ _ (try_profile-Serves cp h.0)
          (elim [ none ↦ λ _. first_profile-Serves l h.1 | some p ↦ λ s. Returns-pure _ _ s ])

  found-Returns :
      {A : Type 0} (N : A → Type 0) (r : Result Error A)
      → OnOk N r
      → Returns {W = W} (OnSome N) (found r)
  unfolding found
  found-Returns N (ok a) h = Returns-pure _ _ h
  found-Returns N (err e) h =
      Returns-if _ (is_kube_not_found e) _ _ (Returns-pure _ _ tt) (Returns-raise _ e)

  -- The profile that is chosen is onboarded, manages the namespace as it was read, and is one of those
  -- listed: the namespace has whatever property the namespace that was read has, and the profile
  -- whatever property all that are listed have.
  pub resolve_cluster_profile-Serves :
      (N : Namespace → Type 0) (Q : ClusterProfile → Type 0) (name : String)
      → Returns N (k8s.get_namespace name)
      → Returns (All Q) k8s.list_profiles
      → Returns
          (OnSome (λ p. (ns : Namespace) × N ns × Serves Q ns p))
          (resolve_cluster_profile k8s api name)
  unfolding resolve_cluster_profile
  resolve_cluster_profile-Serves N Q name read all =
      Returns-bind (OnOk N) _ _ _ (Returns-try N _ read) λ n h.
        Returns-bind (OnSome N) _ _ _ (found-Returns N n h) (elim [
          | none ↦ λ _. Returns-pure _ _ tt
          | some ns ↦ λ known. Returns-bind (All Q) _ _ _ all λ l h.
              Returns-weaken _ _ _ (first_profile-Serves Q ns l h)
                (elim [ none ↦ λ _. tt | some p ↦ λ s. (ns, known, s) ])
        ])

  module _ (P : W → Type 0) (k : KeepsReads k8s P) where
    found-Keeps : {A : Type 0} (r : Result Error A) → Keeps P (found {W = W} r)
    unfolding found
    found-Keeps (ok a) = Keeps-pure _
    found-Keeps (err e) = Keeps-if (is_kube_not_found e) _ _ (Keeps-pure _) (Keeps-raise e)

    with_secret-Keeps :
        (spec : PceConnectionSpec) (o : Option Secret) → Keeps P (with_secret k8s api spec o)
    unfolding with_secret
    with_secret-Keeps spec none = Keeps-pure _
    with_secret-Keeps spec (some secret) = Keeps-pure _

    with_connection-Keeps : (o : Option PceConnection) → Keeps P (with_connection k8s api o)
    unfolding with_connection
    with_connection-Keeps none = Keeps-pure _
    with_connection-Keeps (some conn) =
        Keeps-if (not (api.is_condition_true conn.status.conditions "Connected")) _ _ (Keeps-pure _)
          (Keeps-bind _ _ (Keeps-try _ (k.secret _ _))
            λ s. Keeps-bind _ _ (found-Keeps s) (with_secret-Keeps conn.spec))

    pub resolve_connection-Keeps : (name : String) → Keeps P (resolve_connection k8s api name)
    unfolding resolve_connection
    resolve_connection-Keeps name =
        Keeps-bind _ _ (Keeps-try _ (k.connection name))
          λ c. Keeps-bind _ _ (found-Keeps c) with_connection-Keeps

    try_profile-Keeps : (ns : Namespace) (cp : ClusterProfile) → Keeps P (try_profile k8s api ns cp)
    unfolding try_profile
    try_profile-Keeps ns cp =
        Keeps-if (not (api.is_condition_true cp.status.conditions "Onboarded")) _ _ (Keeps-pure _) (
          Keeps-if (not (desired_for ns cp).managed) _ _ (Keeps-pure _)
            (Keeps-bind _ _ (resolve_connection-Keeps _) λ c. Keeps-pure _))

    first_profile-Keeps :
        (ns : Namespace) (l : List ClusterProfile) → Keeps P (first_profile k8s api ns l)
    unfolding first_profile
    first_profile-Keeps ns [] = Keeps-pure _
    first_profile-Keeps ns (cp ∷ l) =
        Keeps-bind _ _ (try_profile-Keeps ns cp)
          (elim [ none ↦ first_profile-Keeps ns l | some p ↦ Keeps-pure _ ])

    among_profiles-Keeps : (o : Option Namespace) → Keeps P (among_profiles k8s api o)
    unfolding among_profiles
    among_profiles-Keeps none = Keeps-pure _
    among_profiles-Keeps (some ns) = Keeps-bind _ _ k.profiles (first_profile-Keeps ns)

    -- Choosing a profile only reads.
    pub resolve_cluster_profile-Keeps :
        (name : String) → Keeps P (resolve_cluster_profile k8s api name)
    unfolding resolve_cluster_profile
    resolve_cluster_profile-Keeps name =
        Keeps-bind _ _ (Keeps-try _ (k.namespace name))
          λ n. Keeps-bind _ _ (found-Keeps n) among_profiles-Keeps
