-- ===== src/Tests/Onboarding.antt =====
-- Onboarding: an adopted cluster, the loop over its namespaces, and the credentials Secret.
use mathlib.Core.Path.{subst}
use illumio_k8s_utility_oper.Prelude.{
  ◌≡◌, refl, String, Bool, true, false, if◌then◌else◌, ◌&&◌, none, some, List, [], ◌∷◌, arith,
  eq_iff, ◌==◌, string_eq,
}
use illumio_k8s_utility_oper.Prelude.Dict.{lookup}
use illumio_k8s_utility_oper.Prelude.Order.{text_compare, IsAscending}
use illumio_k8s_utility_oper.Result.{Result, ok, err}
use illumio_k8s_utility_oper.Exec.Errors.{Error, kube_not_found}
use illumio_k8s_utility_oper.Exec.Value.{Returns, ok_injective}
use illumio_k8s_utility_oper.Exec.Frame.{Keeps}
use illumio_k8s_utility_oper.Api.Cluster.{Secret}
use illumio_k8s_utility_oper.Api.ClusterProfile.{ClusterProfile}
use illumio_k8s_utility_oper.Api.Connection.{Config}
use illumio_k8s_utility_oper.Policy.Resolve.{contains}
use illumio_k8s_utility_oper.Namespaces.Loop.{CwpClient, CwpTotals, reconcile_namespace_cwps}
use illumio_k8s_utility_oper.Namespaces.Loop.Totals.{IsTotal, reconcile_namespace_cwps-Yields}
use illumio_k8s_utility_oper.Namespaces.Loop.Reported.{
  KeepsUnlessFailed, Reports, reconcile_namespace_cwps-Reports,
}
use illumio_k8s_utility_oper.Exec.Triple.{Ends, Triple}
use illumio_k8s_utility_oper.Onboarding.{ProfileApi, OnboardingClient, put_credentials}
use illumio_k8s_utility_oper.Onboarding.Reconcile.{reconcile_profile}
use illumio_k8s_utility_oper.Onboarding.Adopting.{
  IsAdopting, KeepsAdopting, reconcile_profile-IsAdopting,
}
use illumio_k8s_utility_oper.Onboarding.Credentials.{kept_unless_given, lookup-put_credentials}
use illumio_k8s_utility_oper.Onboarding.Overlap.{LabelMaps, overlap_keys}
use illumio_k8s_utility_oper.Onboarding.Overlap.Keys.{overlap_keys_lem}
use illumio_k8s_utility_oper.Tests.World.{
  World, memory_reader, memory_client, memory_conditions, profile_in, shop,
}
use illumio_k8s_utility_oper.Tests.Draft.{
  Unprovisioned, ensure_label-Unprovisioned, holding_draft, operator,
}
use illumio_k8s_utility_oper.Tests.Backend.{reads}
use illumio_k8s_utility_oper.Tests.Update.{fresh}
use illumio_k8s_utility_oper.Tests.Sorting.{sorter, sorter-IsLawful}

abbrev cwps : CwpClient World
cwps = record {
  ensure_label = memory_client.ensure_label;
  list_profiles = λ cluster w. (ok (fresh ∷ []), w);
  update_profile = λ href u w. (ok tt, w);
}

reconcile_namespace_cwps-Yields_example :
    (r : CwpTotals) × ((reconcile_namespace_cwps
        (memory_reader "manual" [])
        cwps
        operator
        (profile_in "manual")
        (holding_draft "")).0
      ≡ ok r)
    × IsTotal
        (memory_reader "manual" [])
        cwps
        operator
        (profile_in "manual")
        (fresh ∷ [])
        (shop ∷ [])
        r
reconcile_namespace_cwps-Yields_example =
    reconcile_namespace_cwps-Yields (memory_reader "manual" []) cwps operator (profile_in "manual")
      (shop ∷ []) (fresh ∷ []) (holding_draft "") (holding_draft "") (holding_draft "")
      (ground (arith, eq_iff "1" "")) refl refl

-- Updates that leave a mark when they fail, which is on all hrefs but one.
abbrev marking : CwpClient World
marking = record cwps {
  update_profile = λ href u w.
      if href == "/cwp/1"
      then (ok tt, w)
      else (err kube_not_found, record w { provisioned = "failed" ∷ w.provisioned });
}

marks :
    (b : Bool) (w : World)
    → Unprovisioned w
    → Ends
        (λ (u : Unit {0}). Unprovisioned)
        (λ _. Unit {0})
        (if◌then◌else◌ {A = Result Error (Unit {0}) × World} b
          (ok tt, w)
          (err kube_not_found, record w { provisioned = "failed" ∷ w.provisioned }))
marks true w h = h
marks false w h = tt

unmarked : KeepsUnlessFailed (memory_reader "manual" []) marking Unprovisioned
unmarked = record {
  reads = reads;
  namespaces = record { holds = λ w h. h };
  ensures = ensure_label-Unprovisioned;
  lists = λ cluster. record { holds = λ w h. h };
  updates = λ href u. record { run = λ w h. marks (href == "/cwp/1") w h };
}

reconcile_namespace_cwps-Reports_example :
    Triple Unprovisioned
      (Reports (memory_reader "manual" []) marking operator Unprovisioned unmarked)
      (λ _. Unit {0})
      (reconcile_namespace_cwps (memory_reader "manual" []) marking operator (profile_in "manual"))
reconcile_namespace_cwps-Reports_example =
    reconcile_namespace_cwps-Reports (memory_reader "manual" []) marking operator Unprovisioned
      unmarked (profile_in "manual")

abbrev adopted : ClusterProfile
adopted =
    let cp = profile_in "manual" in
    record cp {
      spec = record cp.spec { onboarding = record cp.spec.onboarding { mode = "adopt" } };
    }

abbrev stored : ProfileApi World
stored = record {
  get = λ name w. (ok adopted, w);
  update_status = λ cp w. (ok tt, w);
  create_or_update_secret = λ namespace name change w. (ok tt, w);
}

abbrev onboarding : Config → OnboardingClient World
onboarding cfg = record {
  find_cluster = λ name w.
      (ok (some (record { href = "/cc/1"; name = name; description = ""; token = "" })), w);
  create_cluster = λ name description w.
      (ok (record { href = "/cc/2"; name = name; description = description; token = "t" }), w);
  find_pairing_profile = λ name w. (ok none, w);
  create_pairing_profile = λ pp w. (ok pp, w);
  generate_pairing_key = λ href w. (ok "code", w);
  profiles = cwps;
}

abbrev no_maps : LabelMaps World
no_maps = record { list = λ w. (err kube_not_found, w) }

adopting : Returns IsAdopting (stored.get "main")
adopting = record { value = λ w cp h. subst IsAdopting (ok_injective h) refl }

calls : KeepsAdopting stored (memory_reader "manual" []) no_maps onboarding Unprovisioned
calls = record {
  object = λ name. record { holds = λ w h. h };
  status = λ cp. record { holds = λ w h. h };
  overlaps = record { holds = λ w h. h };
  clusters = λ cfg name. record { holds = λ w h. h };
  cwps = λ cfg. record {
    reads = reads;
    namespaces = record { holds = λ w h. h };
    ensures = ensure_label-Unprovisioned;
    lists = λ cluster. record { holds = λ w h. h };
    updates = λ href u. record { holds = λ w h. h };
  };
}

reconcile_profile-IsAdopting_example : Keeps Unprovisioned (
    reconcile_profile sorter "ops" stored
      (memory_reader "manual" [])
      no_maps
      memory_conditions
      onboarding
      "main")
reconcile_profile-IsAdopting_example =
    reconcile_profile-IsAdopting sorter "ops" stored (memory_reader "manual" []) no_maps
      memory_conditions onboarding Unprovisioned reads calls "main" adopting

abbrev earlier : Secret
earlier = ("cluster_token", "t") ∷ []

-- A write with a code alone keeps the token.
lookup-put_credentials_example :
    let written = put_credentials "pce.example.com:8443" "1" "" "code" earlier in
    (lookup "pce_url" written ≡ some "pce.example.com:8443")
    × (lookup "cluster_id" written ≡ some "1")
    × (lookup "cluster_token" written ≡ kept_unless_given "" (lookup "cluster_token" earlier))
    × (lookup "cluster_code" written ≡ kept_unless_given "code" (lookup "cluster_code" earlier))
    × ((key : String)
        → ("pce_url" == key) ≡ false
        → ("cluster_id" == key) ≡ false
        → ("cluster_token" == key) ≡ false
        → ("cluster_code" == key) ≡ false
        → lookup key written ≡ lookup key earlier)
lookup-put_credentials_example = lookup-put_credentials "pce.example.com:8443" "1" "" "code" earlier

abbrev assigned_keys : List String
assigned_keys = "env" ∷ "app" ∷ []

abbrev mapped_keys : List String
mapped_keys = "app" ∷ "role" ∷ []

overlap_keys_example :
    ((k : String)
      → contains (overlap_keys sorter assigned_keys mapped_keys) k
        ≡ (contains assigned_keys k && contains mapped_keys k))
    × IsAscending text_compare (overlap_keys sorter assigned_keys mapped_keys)
overlap_keys_example = overlap_keys_lem sorter sorter-IsLawful assigned_keys mapped_keys
