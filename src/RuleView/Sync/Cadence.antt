-- ===== src/RuleView/Sync/Cadence.antt =====
-- When a RuleView is synchronized again.
use illumio_k8s_utility_oper.Prelude.{
  ℕ, ◌+◌, ◌-◌, ◌*◌, ◌%◌, ◌≤◌, ◌<◌, ◌≡◌, ◌≢◌, refl, ap, ◌∙◌, String, true, false, none, some, List,
  ltb, leb, arith,
}
use illumio_k8s_utility_oper.Prelude.Int.{
  ℤ, pos, ◌-ℤ◌, ltb_ℤ, leb_ℤ, wrap_int64, times_int64, clamp_int64,
}
use illumio_k8s_utility_oper.Prelude.Order.{Sorter}
use illumio_k8s_utility_oper.Result.{Result, ok, err}
use illumio_k8s_utility_oper.Exec.{pure, resume, ◌>>=◌}
use illumio_k8s_utility_oper.Exec.Errors.{Error, Duration}
use illumio_k8s_utility_oper.Exec.Value.{Returns, Returns-pure, Returns-after}
use illumio_k8s_utility_oper.Api.Meta.{ConditionApi, Message}
use illumio_k8s_utility_oper.Api.Cluster.{Reader}
use illumio_k8s_utility_oper.Api.Connection.{Config}
use illumio_k8s_utility_oper.Api.Insight.{Time}
use illumio_k8s_utility_oper.Api.RuleView.{RuleView}
use illumio_k8s_utility_oper.Pce.RuleSearch.{FoundRule}
use illumio_k8s_utility_oper.Policy.Controller.{ControlResult, ResourceApi}
use illumio_k8s_utility_oper.Policy.Profile.{Connected}
use illumio_k8s_utility_oper.Insight.Scope.{Prepared, gone, refused, scoped, prepare}
use illumio_k8s_utility_oper.RuleView.Sync.{
  RuleViewClient, minute, interval_of, elapsed_since, is_current, remaining, view_refusals,
  write_view, fail_view, on_search, on_prepared_view, sync, on_view, reconcile_view,
}

wrap_small : (n : ℕ) → n < 9223372036854775808 → wrap_int64 (pos n) ≡ pos n
unfolding wrap_int64
wrap_small n small =
    let same : n % 18446744073709551616 ≡ n = omega (arith, small) in
    let test : ltb n 9223372036854775808 ≡ true = ground (arith, small) in rw (same, test) refl

clamp_small : (n : ℕ) → n < 9223372036854775808 → clamp_int64 (pos n) ≡ pos n
unfolding clamp_int64
clamp_small n small =
    let test : ltb n 9223372036854775808 ≡ true = ground (arith, small) in rw test refl

sub_pos : (a b : ℕ) → b ≤ a → pos a -ℤ pos b ≡ pos (a - b)
unfolding ◌-ℤ◌
sub_pos a b h =
    let test : leb (0 + b) (a + 0) ≡ true = ground (arith, h) in
    let same : a + 0 - (0 + b) ≡ a - b = omega arith in rw (test, same) refl

interval_of_valid :
    (rv : RuleView) (m : ℕ)
    → rv.spec.refresh_interval_minutes ≡ pos m
    → 1 ≤ m
    → m ≤ 1440
    → interval_of rv ≡ pos (m * minute)
unfolding interval_of times_int64
interval_of_valid rv m valid low high =
    let positive : leb_ℤ (pos (m * minute)) (pos 0) ≡ false = ground (arith, low) in
    rw (valid, wrap_small (m * minute) (omega (arith, high)), positive) refl

module _ {W : Type 0} (sorter : Sorter) (max_rules : ℤ) (now : W → Time)
    (objects : ResourceApi W RuleView) (k8s : Reader W) (api : ConditionApi)
    (factory : Config → RuleViewClient W) where
  remaining_lem :
      (rv : RuleView) (m a t : ℕ)
      → rv.spec.refresh_interval_minutes ≡ pos m
      → 1 ≤ m
      → m ≤ 1440
      → is_current sorter max_rules now objects k8s api factory rv ≡ true
      → rv.status.observed_at ≡ some (pos a)
      → a ≤ t
      → t < a + m * minute
      → remaining sorter max_rules now objects k8s api factory rv (pos t)
        ≡ some (pos (a + m * minute - t))
  unfolding remaining clamp_int64 ◌-ℤ◌ interval_of
  remaining_lem rv m a t valid low high current at later early =
      let interval = interval_of_valid rv m valid low high in
      let elapsed : elapsed_since (pos t) (pos a) ≡ pos (t - a) =
        ap clamp_int64 (sub_pos t a later) ∙ clamp_small (t - a) (omega (arith, early, high)) in
      let test : ltb_ℤ (pos (t - a)) (pos (m * minute)) ≡ true = ground (arith, later, early) in
      let left : pos (m * minute) -ℤ pos (t - a) ≡ pos (a + m * minute - t) =
        sub_pos (m * minute) (t - a) (omega (arith, later, early))
        ∙ ap pos (omega (arith, later, early)) in
      let whole = wrap_small (a + m * minute - t) (omega (arith, later, high)) in
      rw (at, current, interval, elapsed) (rw (test, left, whole) refl)

  abbrev Again : Duration → ControlResult → Type 0
  Again d r = r.requeue_after ≡ d

  write_view-Again :
      (rv written : RuleView)
      → Returns
          (Again (interval_of rv))
          (write_view sorter max_rules now objects k8s api factory rv written)
  unfolding write_view
  write_view-Again rv written =
      Returns-after (Again (interval_of rv)) _ _ λ _. Returns-pure (Again (interval_of rv)) _ refl

  fail_view-Again :
      (rv : RuleView) (reason : String) (message : Message)
      → Returns
          (Again (interval_of rv))
          (fail_view sorter max_rules now objects k8s api factory rv reason message)
  unfolding fail_view
  fail_view-Again rv reason message = record { value = λ w. (write_view-Again rv _).value w }

  on_search-Again :
      (rv : RuleView) (c : Connected) (r : Result Error (List FoundRule))
      → Returns
          (Again (interval_of rv))
          (on_search sorter max_rules now objects k8s api factory rv c r)
  unfolding on_search
  on_search-Again rv c (err e) = fail_view-Again rv _ _
  on_search-Again rv c (ok found) = record { value = λ w. (write_view-Again rv _).value w }

  on_prepared_view-Again :
      (rv : RuleView) (p : Prepared)
      → p ≢ gone
      → Returns
          (Again (interval_of rv))
          (on_prepared_view sorter max_rules now objects k8s api factory rv p)
  unfolding on_prepared_view
  on_prepared_view-Again rv gone there = absurd (there refl)
  on_prepared_view-Again rv (refused reason message) there = fail_view-Again rv reason message
  on_prepared_view-Again rv (scoped c hrefs) there =
      Returns-after (Again (interval_of rv)) _ _ (on_search-Again rv c)

  module _ (namespace name : String) (rv : RuleView) (w w1 : W)
      (read : objects.get namespace name w ≡ (ok rv, w1)) (m : ℕ)
      (valid : rv.spec.refresh_interval_minutes ≡ pos m) (low : 1 ≤ m) (high : m ≤ 1440) where
    -- For a valid interval of m minutes: if the status is of the present generation and refresh token and
    -- was stamped at a, not in the future and less than the interval ago, the reconciliation makes no
    -- call after the read of the resource and asks to be called again at a plus the interval.
    pub reconcile_view_waiting :
        (a t : ℕ)
        → is_current sorter max_rules now objects k8s api factory rv ≡ true
        → rv.status.observed_at ≡ some (pos a)
        → now w1 ≡ pos t
        → a ≤ t
        → t < a + m * minute
        → reconcile_view sorter max_rules now objects k8s api factory namespace name w
          ≡ (ok (record { requeue_after = pos (a + m * minute - t) }), w1)
    unfolding reconcile_view on_view pure ◌>>=◌
    reconcile_view_waiting a t current at clock later early =
        rw (read, resume)
          (rw (on_view, clock, remaining_lem rv m a t valid low high current at later early) refl)

    -- For a valid interval: if a sync is due and the namespace is there, every outcome asks for the next
    -- one after the interval, whether the rules were read, the profile, the scope or a label is missing,
    -- or the PCE fails; only an error of the cluster, which is retried, does not.
    pub reconcile_view_due :
        (p : Prepared) (w2 w3 : W) (r : ControlResult)
        → remaining sorter max_rules now objects k8s api factory rv (now w1) ≡ none
        → prepare (λ cfg. (factory cfg).find_label) k8s api view_refusals rv.meta.namespace w1
          ≡ (ok p, w2)
        → p ≢ gone
        → reconcile_view sorter max_rules now objects k8s api factory namespace name w ≡ (ok r, w3)
        → r.requeue_after ≡ pos (m * minute)
    unfolding reconcile_view on_view sync ◌>>=◌
    reconcile_view_due p w2 w3 r due prepared there ran =
        let opened : on_prepared_view sorter max_rules now objects k8s api factory rv p w2
            ≡ (ok r, w3) =
          rw (read, resume, on_view, due, prepared, resume) at ran in
        (on_prepared_view-Again rv p there).value w2 r (ap (λ x. x.0) opened)
        ∙ interval_of_valid rv m valid low high
