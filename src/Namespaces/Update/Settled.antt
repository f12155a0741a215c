-- ===== src/Namespaces/Update/Settled.antt =====
-- The updates settle: applied to its profile, an update leaves nothing to change, and the labels that
-- are cached are not asked for again.
use mathlib.Core.Path.{subst}
use illumio_k8s_utility_oper.Prelude.{
  String, ◌≡◌, refl, sym, ap, ◌∙◌, false, Option, none, some, [], ◌∷◌, arith, eq_iff, beq_refl,
  ◌==◌, bool_eq, string_eq, if◌then◌else◌,
}
use illumio_k8s_utility_oper.Prelude.Dict.{Labels, lookup, insert, lookup-insert, NodupKeys}
use illumio_k8s_utility_oper.Result.{Result, ok}
use illumio_k8s_utility_oper.Exec.{pure, ◌>>=◌, resume}
use illumio_k8s_utility_oper.Exec.Value.{>>=-eq-ok, pure-eq-ok}
use illumio_k8s_utility_oper.Exec.Errors.{Error}
use illumio_k8s_utility_oper.Namespaces.Cwp.{DesiredCwp}
use illumio_k8s_utility_oper.Pce.Objects.{Owner, Label}
use illumio_k8s_utility_oper.Namespaces.Update.{
  ContainerWorkloadProfile, CwpUpdate, EnsureLabel, Resolving, cache_key, assign, assign_found,
  resolve_desired, current_hrefs, cwp_changed, update_for, BuiltUpdate, build_cwp_update, WithCache,
  uncached, recall, remember,
}
use illumio_k8s_utility_oper.Namespaces.Update.Maps.{
  NodupKeys-insert, same_label_set_self, current_hrefs-append,
}

-- The profile that the PCE has after an update.
abbrev pub updated : ContainerWorkloadProfile → CwpUpdate → ContainerWorkloadProfile
updated current u = record current {
  managed = elim u.managed [ none ↦ current.managed | some m ↦ m ];
  enforcement_mode =
      if u.enforcement_mode == "" then current.enforcement_mode else u.enforcement_mode;
  labels = u.labels;
}

abbrev Extends : Labels → Labels → Type 0
Extends c d = (k href : String) → lookup k c ≡ some href → lookup k d ≡ some href

-- Both forms of the assignments say the same.
abbrev IsCoherent : Resolving → Type 0
IsCoherent r = NodupKeys r.href_by_key × (r.href_by_key ≡ current_hrefs r.labels [])

assign-IsCoherent :
    (key href : String) (r : Resolving) → IsCoherent r → IsCoherent (assign key href r)
assign-IsCoherent key href r h = (
  NodupKeys-insert key href r.href_by_key h.0,
  ap (insert key href) h.1 ∙ sym (current_hrefs-append r.labels key href []),
)

-- The href of one label, once it is resolved, and the cache behind it.
abbrev Assigned : String → String → Resolving → Resolving → Labels → Labels → Type 0
Assigned key value r r' cache cache' =
    (href : String) × (r' ≡ assign key href r)
    × Extends cache cache'
    × (lookup (cache_key key value) cache' ≡ some href)

Extends-insert :
    (key href : String) (cache : Labels)
    → lookup key cache ≡ none
    → Extends cache (insert key href cache)
Extends-insert key href cache unknown k x e =
    ground (arith, lookup-insert key k href cache, eq_iff key k, unknown)

module _ {W : Type 0} (ensure : EnsureLabel W) (owner : Owner) where
  assign_found-eq-ok :
      (key value : String) (r : Resolving) (o : Option String) (r' : Resolving) (w : W)
      (cache : Labels) (s' : WithCache W)
      → lookup (cache_key key value) cache ≡ o
      → assign_found ensure owner key value r o (w, cache) ≡ (ok r', s')
      → Assigned key value r r' cache s'.1
  unfolding assign_found uncached remember
  assign_found-eq-ok key value r (some href) r' w cache s' known h =
      let (is, state) = pure-eq-ok (assign key href r) r' (w, cache) s' h in
      (
        href,
        sym is,
        subst (λ s. Extends cache s.1) state (λ k x e. e),
        subst (λ s. lookup (cache_key key value) s.1 ≡ some href) state known,
      )
  assign_found-eq-ok key value r none r' w cache s' unknown h =
      let k = cache_key key value in
      let (lbl, s1, ensured, rest) =
        >>=-eq-ok (uncached (ensure key value owner))
          (λ lbl. remember k lbl.href >>= λ _. pure (assign key lbl.href r)) (w, cache) s' r' h in
      let (u, s2, remembered, last) =
        >>=-eq-ok (remember k lbl.href) (λ _. pure (assign key lbl.href r)) s1 s' r' rest in
      let (is, state) = pure-eq-ok (assign key lbl.href r) r' s2 s' last in
      let cached : insert k lbl.href cache ≡ s'.1 =
        ap (λ (t : Result Error Label × WithCache W). insert k lbl.href t.1.1) ensured
        ∙ ap (λ (t : Result Error (Unit {0}) × WithCache W). t.1.1) remembered
        ∙ ap (λ (s : WithCache W). s.1) state in
      (
        lbl.href,
        sym is,
        subst (Extends cache) cached (Extends-insert k lbl.href cache unknown),
        subst (λ c. lookup k c ≡ some lbl.href) cached
            (lookup-insert k k lbl.href cache ∙ rw beq_refl refl),
      )

  -- A resolution that has succeeded, with the caches in front of it and behind it: with any cache that
  -- has all the hrefs, it succeeds again, without a call.
  abbrev Resolved : Labels → Resolving → Resolving → Labels → Labels → Type 0
  Resolved labels r r' cache cache' =
      Extends cache cache'
      × (IsCoherent r → IsCoherent r')
      × ((c : Labels)
          → Extends cache' c
          → (w : W) → resolve_desired ensure owner labels r (w, c) ≡ (ok r', (w, c)))

  resolve_again :
      (key value href : String) (labels : Labels) (r r' : Resolving) (cache middle cache' : Labels)
      → Extends cache middle
      → lookup (cache_key key value) middle ≡ some href
      → Resolved labels (assign key href r) r' middle cache'
      → Resolved ((key, value) ∷ labels) r r' cache cache'
  unfolding resolve_desired assign_found recall ◌>>=◌
  resolve_again key value href labels r r' cache middle cache' grows known
        (grows', coherent, again) =
      (
        λ k x e. grows' k x (grows k x e),
        λ c. coherent (assign-IsCoherent key href r c),
        λ c more w.
            rw (more (cache_key key value) href (grows' (cache_key key value) href known))
              (again c more w),
      )

  resolve_nothing : (r : Resolving) (cache : Labels) → Resolved [] r r cache cache
  unfolding resolve_desired pure
  resolve_nothing r cache = (λ k x e. e, λ c. c, λ c more w. refl)

  resolve_desired-Resolved :
      (labels : Labels) (r r' : Resolving) (w : W) (cache : Labels) (s' : WithCache W)
      → resolve_desired ensure owner labels r (w, cache) ≡ (ok r', s')
      → Resolved labels r r' cache s'.1
  unfolding resolve_desired recall ◌>>=◌
  resolve_desired-Resolved [] r r' w cache s' h =
      let (is, state) = pure-eq-ok r r' (w, cache) s' h in
      subst (λ x. Resolved [] r x cache s'.1) is
        (subst (λ s. Resolved [] r r cache s.1) state (resolve_nothing r cache))
  resolve_desired-Resolved ((key, value) ∷ labels) r r' w cache s' h =
      let k = cache_key key value in
      let (r1, s1, first, rest) =
        >>=-eq-ok (assign_found ensure owner key value r (lookup k cache))
          (resolve_desired ensure owner labels) (w, cache) s' r' h in
      let (href, is, grows, known) =
        assign_found-eq-ok key value r (lookup k cache) r1 w cache s1 refl first in
      resolve_again key value href labels r r' cache s1.1 s'.1 grows known (
        subst (λ x. Resolved labels x r' s1.1 s'.1) is
          (resolve_desired-Resolved labels r1 r' s1.0 s1.1 s' rest))

cwp_changed-updated :
    (current : ContainerWorkloadProfile) (desired : DesiredCwp) (r : Resolving)
    → IsCoherent r
    → cwp_changed (updated current (update_for desired r.labels)) desired r.href_by_key ≡ false
unfolding cwp_changed
cwp_changed-updated current desired r (nodup, same) =
    rw (sym same, same_label_set_self r.href_by_key nodup, beq_refl)
      (ground (
        arith,
        eq_iff desired.enforcement_mode "",
        eq_iff desired.enforcement_mode desired.enforcement_mode,
      ))

abbrev start : Resolving
start = record { labels = []; href_by_key = [] }

-- Once an update was built and the PCE has applied it to the profile as it documents, building the update
-- of the same namespace again, with the cache that the first one left, asks the PCE for no label, gives
-- the same update, and finds nothing to change.
pub build_cwp_update-settled :
    {W : Type 0} (ensure : EnsureLabel W) (owner : Owner) (current : ContainerWorkloadProfile)
    (desired : DesiredCwp) (built : BuiltUpdate) (w w' : W) (cache cache' : Labels)
    → build_cwp_update ensure owner current desired (w, cache) ≡ (ok built, (w', cache'))
    → (v : W)
    → build_cwp_update ensure owner (updated current built.update) desired (v, cache')
      ≡ (ok (record built { changed = false }), (v, cache'))
unfolding build_cwp_update ◌>>=◌
build_cwp_update-settled ensure owner current desired built w w' cache cache' h v =
    let (r, s1, resolved, rest) =
      >>=-eq-ok (resolve_desired ensure owner desired.labels start)
        (λ r. pure (record {
          update = update_for desired r.labels;
          changed = cwp_changed current desired r.href_by_key;
        }))
        (w, cache) (w', cache') built h in
    let (is, state) = pure-eq-ok _ built s1 (w', cache') rest in
    let (grows, coherent, again) =
      resolve_desired-Resolved ensure owner desired.labels start r w cache s1 resolved in
    let later : (k href : String) → lookup k s1.1 ≡ some href → lookup k cache' ≡ some href =
      λ k href e. subst (λ (s : WithCache _). lookup k s.1 ≡ some href) state e in
    subst
      (λ (b : BuiltUpdate).
        build_cwp_update ensure owner (updated current b.update) desired (v, cache')
        ≡ (ok (record b { changed = false }), (v, cache')))
      is
      (rw (again cache' later v, resume)
        (rw (cwp_changed-updated current desired r (coherent (tt, refl))) refl))
