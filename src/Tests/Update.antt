-- ===== src/Tests/Update.antt =====
-- The update of a namespace's profile: a run against the PCE in memory, and the theorem at it.
use illumio_k8s_utility_oper.Prelude.{◌≡◌, refl, true, false, [], ◌∷◌}
use illumio_k8s_utility_oper.Prelude.Dict.{Labels}
use illumio_k8s_utility_oper.Result.{Result, ok}
use illumio_k8s_utility_oper.Exec.{◌>>=◌}
use illumio_k8s_utility_oper.Exec.Errors.{Error}
use illumio_k8s_utility_oper.Namespaces.Cwp.{DesiredCwp}
use illumio_k8s_utility_oper.Namespaces.Update.{
  ContainerWorkloadProfile, BuiltUpdate, assigned_label, update_for, same_label_set, WithCache,
  recall, uncached, remember, build_cwp_update,
}
use illumio_k8s_utility_oper.Namespaces.Update.Settled.{updated, build_cwp_update-settled}
use illumio_k8s_utility_oper.Tests.World.{World, memory_client}
use illumio_k8s_utility_oper.Tests.Draft.{holding_draft, operator}

abbrev wanted : DesiredCwp
wanted = record { managed = true; labels = ("app", "web") ∷ []; enforcement_mode = "full" }

-- As Kubelink creates it.
abbrev pub fresh : ContainerWorkloadProfile
fresh = record {
  href = "/cwp/1";
  name = "";
  namespace = "shop";
  managed = false;
  enforcement_mode = "idle";
  visibility_level = "";
  labels = [];
}

abbrev built : BuiltUpdate
built = record { update = update_for wanted (assigned_label "app" "/ri" ∷ []); changed = true }

abbrev cached : Labels
cached = ("app|web", "/ri") ∷ []

abbrev first_run : Result Error BuiltUpdate × WithCache World
first_run = build_cwp_update memory_client.ensure_label operator fresh wanted (holding_draft "", [])

first_run_builds : first_run ≡ (ok built, (first_run.1.0, cached))
unfolding build_cwp_update memory_client same_label_set recall uncached remember ◌>>=◌
first_run_builds = refl

build_cwp_update-settled_example :
    build_cwp_update memory_client.ensure_label operator
      (updated fresh built.update)
      wanted
      (first_run.1.0, cached)
    ≡ (ok (record built { changed = false }), (first_run.1.0, cached))
build_cwp_update-settled_example =
    build_cwp_update-settled memory_client.ensure_label operator fresh wanted built
      (holding_draft "") first_run.1.0 [] cached first_run_builds first_run.1.0
