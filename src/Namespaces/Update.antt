-- ===== src/Namespaces/Update.antt =====
-- internal/controller/clusterprofile_controller.go, buildCWPUpdate and sameLabelSet, and
-- internal/pce/cwp.go: how the Container Workload Profile (CWP) of a namespace is brought to the desired
-- state.
pub mod Maps
pub mod Settled
use illumio_k8s_utility_oper.Prelude.{
  ℕ, String, ◌<>◌, Bool, true, false, not, ◌&&◌, ◌||◌, Option, none, some, List, [], ◌∷◌, ◌++◌,
  length, ◌==◌, nat_eq, bool_eq, string_eq, if◌then◌else◌,
}
use illumio_k8s_utility_oper.Prelude.Dict.{Labels, lookup, insert, get}
use illumio_k8s_utility_oper.Result.{ok}
use illumio_k8s_utility_oper.Exec.{Exec, pure, ◌>>=◌, ◌>>◌}
use illumio_k8s_utility_oper.Namespaces.Cwp.{DesiredCwp}
use illumio_k8s_utility_oper.Pce.Objects.{LabelRef, Owner, Label}

pub record CwpLabel : Type 0 where
  pub key : String
  pub assignment : Option LabelRef
  pub restriction : List LabelRef

pub record ContainerWorkloadProfile : Type 0 where
  pub href : String
  pub name : String
  pub namespace : String
  pub managed : Bool
  pub enforcement_mode : String
  pub visibility_level : String
  pub labels : List CwpLabel

-- An absent field, and an empty mode, leave the profile's as it is; the labels are always replaced.
pub record CwpUpdate : Type 0 where
  pub managed : Option Bool
  pub enforcement_mode : String
  pub labels : List CwpLabel

-- `EnsureLabel` of `OnboardingClient`
abbrev pub EnsureLabel : Type 0 → Type 0
EnsureLabel W = String → String → Owner → Exec W Label

-- What the loop over the desired labels fills: both forms of the assignments.
pub record Resolving : Type 0 where
  pub labels : List CwpLabel
  pub href_by_key : Labels

abbrev pub cache_key : String → String → String
cache_key key value = key <> "|" <> value

abbrev pub assigned_label : String → String → CwpLabel
assigned_label key href = record {
  key = key;
  assignment = some (record { href = href });
  restriction = [];
}

abbrev pub assign : String → String → Resolving → Resolving
assign key href r = record {
  labels = r.labels ++ (assigned_label key href ∷ []);
  href_by_key = insert key href r.href_by_key;
}

-- `labelHref`, the cache of hrefs, is a part of the state: all namespaces share it, and what a failed
-- resolution has put there stays.
abbrev pub WithCache : Type 0 → Type 0
WithCache W = W × Labels

module _ {W : Type 0} where
  unfoldable pub uncached : {A : Type 0} → Exec W A → Exec (WithCache W) A
  uncached m (w, cache) = let (r, w') = m w in (r, (w', cache))

  unfoldable pub recall : String → Exec (WithCache W) (Option String)
  recall k (w, cache) = (ok (lookup k cache), (w, cache))

  unfoldable pub remember : String → String → Exec (WithCache W) (Unit {0})
  remember k href (w, cache) = (ok tt, (w, insert k href cache))

module _ {W : Type 0} (ensure : EnsureLabel W) (owner : Owner) where
  unfoldable pub assign_found :
      String → String → Resolving → Option String → Exec (WithCache W) Resolving
  assign_found key value r (some href) = pure (assign key href r)
  assign_found key value r none = do
    lbl ← uncached (ensure key value owner)
    remember (cache_key key value) lbl.href
    pure (assign key lbl.href r)

  unfoldable pub resolve_desired : Labels → Resolving → Exec (WithCache W) Resolving
  resolve_desired [] r = pure r
  resolve_desired ((key, value) ∷ labels) r = do
    href ← recall (cache_key key value)
    r' ← assign_found key value r href
    resolve_desired labels r'

-- The loop over `current.Labels`.
pub current_hrefs : List CwpLabel → Labels → Labels
current_hrefs [] hrefs = hrefs
current_hrefs (l ∷ labels) hrefs =
    current_hrefs labels
      (elim l.assignment [ none ↦ hrefs | some ref ↦ insert l.key ref.href hrefs ])

-- The loop over `a`; a missing key of `b` reads as the empty text.
agrees : Labels → Labels → Bool
agrees [] b = true
agrees ((k, v) ∷ a) b = get b k == v && agrees a b

unfoldable pub same_label_set : Labels → Labels → Bool
unfolding agrees
same_label_set a b = length a == length b && agrees a b

cwp_changed : ContainerWorkloadProfile → DesiredCwp → Labels → Bool
unfolding current_hrefs
cwp_changed current desired hrefs =
    not (current.managed == desired.managed)
    || (desired.managed
        && not (current.enforcement_mode == desired.enforcement_mode)
        && not (desired.enforcement_mode == ""))
    || not (same_label_set (current_hrefs current.labels []) hrefs)

abbrev pub update_for : DesiredCwp → List CwpLabel → CwpUpdate
update_for desired labels = record {
  managed = some desired.managed;
  enforcement_mode =
      if desired.managed && not (desired.enforcement_mode == "")
      then desired.enforcement_mode
      else "";
  labels = labels;
}

-- The update, and whether anything changes.
pub record BuiltUpdate : Type 0 where
  pub update : CwpUpdate
  pub changed : Bool

module _ {W : Type 0} (ensure : EnsureLabel W) (owner : Owner) where
  unfoldable pub build_cwp_update :
      ContainerWorkloadProfile → DesiredCwp → Exec (WithCache W) BuiltUpdate
  unfolding assign_found resolve_desired cwp_changed
  build_cwp_update current desired = do
    r ← resolve_desired ensure owner desired.labels (record { labels = []; href_by_key = [] })
    pure (record {
      update = update_for desired r.labels;
      changed = cwp_changed current desired r.href_by_key;
    })
