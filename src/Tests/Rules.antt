-- ===== src/Tests/Rules.antt =====
-- The rule view, and the answers of the PCE's HTTP interface.
use illumio_k8s_utility_oper.Prelude.{
  ℕ, ◌+◌, ◌-◌, ◌*◌, ◌≤◌, ◌<◌, ◌≡◌, leb, refl, String, ◌<>◌, true, false, Option, none, some, List,
  [], ◌∷◌, after_last_slash, arith, eq_iff, string_eq, ltb, Bool-cases, inl, inr, if◌then◌else◌,
}
use illumio_k8s_utility_oper.Prelude.Int.{pos, times_int64}
use illumio_k8s_utility_oper.Result.{ok}
use illumio_k8s_utility_oper.Exec.{◌>>=◌}
use illumio_k8s_utility_oper.Api.Connection.{Config}
use illumio_k8s_utility_oper.Api.Insight.{Time}
use illumio_k8s_utility_oper.Api.Meta.{about_label}
use illumio_k8s_utility_oper.Api.RuleView.{RuleView}
use illumio_k8s_utility_oper.Policy.Controller.{ResourceApi}
use illumio_k8s_utility_oper.Pce.Objects.{label_actor}
use illumio_k8s_utility_oper.Pce.RuleSearch.{FoundRule}
use illumio_k8s_utility_oper.Pce.Http.{receive}
use illumio_k8s_utility_oper.Pce.Http.Answers.{Answer, receive_lem}
use illumio_k8s_utility_oper.Pce.Traffic.{
  TrafficQuery, WireFlow, is_completed, last_path_segment, Wait, again, expired, TrafficApi,
  two_seconds, query_traffic,
}
use illumio_k8s_utility_oper.Pce.Traffic.Polling.{IsLawful, Ends, enough_polls, query_traffic-Ends}
use illumio_k8s_utility_oper.Pce.Traffic.Completed.{Answers, IsResult, query_traffic-IsResult}
use illumio_k8s_utility_oper.Exec.Triple.{Triple}
use illumio_k8s_utility_oper.Exec.Errors.{is_label_not_found}
use illumio_k8s_utility_oper.Namespaces.Glob.{path_match}
use illumio_k8s_utility_oper.Namespaces.Cwp.{
  compute_desired_cwp, floor_enforcement, apply_annotation_overrides, matches_any_pattern,
  rule_matches, resolve_assign_labels,
}
use illumio_k8s_utility_oper.Policy.Profile.{resolve_cluster_profile, resolve_connection}
use illumio_k8s_utility_oper.Policy.Resolve.{scope_label_subset}
use illumio_k8s_utility_oper.Insight.Scope.{Prepared, refused, prepare, scope_label_values}
use illumio_k8s_utility_oper.RuleView.{render_actors}
use illumio_k8s_utility_oper.RuleView.Sync.{
  RuleViewClient, minute, interval_of, view_refusals, is_current, remaining, reconcile_view,
}
use illumio_k8s_utility_oper.RuleView.Sync.Cadence.{reconcile_view_waiting, reconcile_view_due}
use illumio_k8s_utility_oper.Tests.World.{
  World, memory_reader, memory_client, memory_conditions, holding,
}
use illumio_k8s_utility_oper.Tests.Draft.{holding_draft}
use illumio_k8s_utility_oper.Tests.Sorting.{sorter}

abbrev rule_of : String → String → FoundRule
rule_of href data_set = record {
  href = href;
  ruleset_href = "/rs/1";
  ruleset_name = "web";
  ruleset_external_data_set = data_set;
  enabled = true;
  kind = "allow";
  consumers = label_actor "/orgs/1/labels/7" ∷ [];
  services = [];
}

abbrev found_rules : List FoundRule
found_rules = rule_of "/r/1" "" ∷ rule_of "/r/2" "ops" ∷ rule_of "/r/3" "ops" ∷ []

-- A consumer is shown by the last segment of its label's href.
rendered : render_actors (label_actor "/orgs/1/labels/7" ∷ []) ≡ "label:7" ∷ []
unfolding render_actors after_last_slash
rendered = refl

-- A view that was stamped at 0, and is synchronized every five minutes.
abbrev view_at : Option Time → RuleView
view_at at = record {
  meta = record {
    name = "rules";
    namespace = "shop";
    uid = "u-8";
    generation = 1;
    annotations = [];
    deleting = false;
    finalizers = [];
  };
  spec = record { refresh_interval_minutes = pos 5; policy_version = "active" };
  status = record {
    conditions = holding "Ready" ∷ [];
    observed_at = at;
    rule_count = 0;
    owned_count = 0;
    external_count = 0;
    truncated = false;
    rules = [];
    observed_generation = 1;
    observed_refresh = "";
  };
}

abbrev views : Option Time → ResourceApi World RuleView
views at = record {
  get = λ namespace name w. (ok (view_at at), w);
  update = λ rv w. (ok rv, w);
  update_status = λ rv w. (ok tt, w);
}

abbrev a_minute_later : World → Time
a_minute_later w = pos 60000000000

abbrev searching : Config → RuleViewClient World
searching cfg = record {
  find_label = memory_client.find_label;
  search_rules = λ q w. (ok found_rules, w);
}

current :
    is_current sorter
      (pos 0)
      a_minute_later
      (views (some (pos 0)))
      (memory_reader "auto" [])
      memory_conditions
      searching
      (view_at (some (pos 0)))
    ≡ true
unfolding memory_conditions
current = refl

reconcile_view_waiting_example :
    reconcile_view sorter
      (pos 0)
      a_minute_later
      (views (some (pos 0)))
      (memory_reader "auto" [])
      memory_conditions
      searching
      "shop"
      "rules"
      (holding_draft "")
    ≡ (ok (record { requeue_after = pos (0 + 5 * minute - 60000000000) }), holding_draft "")
reconcile_view_waiting_example =
    reconcile_view_waiting sorter (pos 0) a_minute_later (views (some (pos 0)))
      (memory_reader "auto" []) memory_conditions searching "shop" "rules" (view_at (some (pos 0)))
      (holding_draft "") (holding_draft "") refl 5 refl (omega arith) (omega arith) 0 60000000000
      current refl refl (omega arith) (omega arith)

abbrev no_label : Prepared
no_label = refused "NoScopeLabels" (about_label "scope label %s=%s not yet in the PCE" "app" "web")

prepares :
    prepare
      (λ cfg. (searching cfg).find_label)
      (memory_reader "auto" [])
      memory_conditions
      view_refusals
      "shop"
      (holding_draft "")
    ≡ (ok no_label, holding_draft "")
unfolding prepare ◌>>=◌ resolve_cluster_profile memory_conditions compute_desired_cwp
    floor_enforcement apply_annotation_overrides matches_any_pattern path_match rule_matches
    resolve_connection scope_label_values scope_label_subset resolve_assign_labels memory_client
    is_label_not_found
prepares = refl

due :
    remaining sorter
      (pos 0)
      a_minute_later
      (views none)
      (memory_reader "auto" [])
      memory_conditions
      searching
      (view_at none)
      (pos 60000000000)
    ≡ none
unfolding remaining
due = refl

syncs :
    reconcile_view sorter
      (pos 0)
      a_minute_later
      (views none)
      (memory_reader "auto" [])
      memory_conditions
      searching
      "shop"
      "rules"
      (holding_draft "")
    ≡ (ok (record { requeue_after = pos 300000000000 }), holding_draft "")
unfolding reconcile_view remaining prepare interval_of times_int64 ◌>>=◌ resolve_cluster_profile
    memory_conditions compute_desired_cwp floor_enforcement apply_annotation_overrides
    matches_any_pattern path_match rule_matches resolve_connection scope_label_values
    scope_label_subset resolve_assign_labels memory_client is_label_not_found
syncs = refl

reconcile_view_due_example : pos 300000000000 ≡ pos (5 * minute)
reconcile_view_due_example =
    reconcile_view_due sorter (pos 0) a_minute_later (views none) (memory_reader "auto" [])
      memory_conditions searching "shop" "rules" (view_at none) (holding_draft "")
      (holding_draft "") refl 5 refl (omega arith) (omega arith) no_label (holding_draft "")
      (holding_draft "") (record { requeue_after = pos 300000000000 }) due prepares (λ h. cc h)
      syncs

receive_example :
    Answer
      (λ s. none)
      (record { status = 429; retry_after = ""; body = "" })
      (receive (λ s. none) (record { status = 429; retry_after = ""; body = "" }))
receive_example = receive_lem (λ s. none) (record { status = 429; retry_after = ""; body = "" })

waits :
    (deadline w : ℕ)
    → (if◌then◌else◌ {A = Wait × ℕ} (ltb w deadline) (again, w + two_seconds) (expired, w)).0
      ≡ again
    → (w < deadline)
      × (w + two_seconds
          ≤ (if◌then◌else◌ {A = Wait × ℕ} (ltb w deadline) (again, w + two_seconds) (expired, w)).1)
waits deadline w h = elim (Bool-cases (ltb w deadline)) [
  | inl e ↦ rw e (ground (arith, e), omega arith)
  | inr e ↦ cc (rw e at h)
]

-- A PCE that answers each poll with the given status at once.
abbrev polled : String → TrafficApi ℕ
polled status = record {
  create_query = λ b w. (ok (record { href = "/q" <> ("/" <> "42"); status = "queued" }), w);
  query_status = λ uuid w. (ok (record { href = ""; status = status }), w);
  download = λ uuid w. (ok [], w);
  now = λ w. w;
  wait = λ deadline w. if ltb w deadline then (again, w + two_seconds) else (expired, w);
  format_time = λ t. "";
  parse_time = λ s. pos 0;
}

polled-IsLawful : (status : String) → IsLawful (polled status)
polled-IsLawful status = record {
  status-now = λ uuid w. omega arith;
  wait-again = λ deadline w h. waits deadline w h;
}

abbrev inbound : TrafficQuery
inbound = record {
  query_name = "preflight-inbound-shop";
  source_label_hrefs = [];
  destination_label_hrefs = "/labels/1" ∷ [];
  from = pos 0;
  to = pos 1;
  max_results = pos 100;
}

query_traffic-Ends_example : Ends (query_traffic (polled "queued") enough_polls inbound 0).0
query_traffic-Ends_example =
    query_traffic-Ends (polled "queued") (polled-IsLawful "queued") inbound 0

abbrev offered : List WireFlow
offered =
    record {
      src = record { ip = "10.0.0.1"; workload = some (("app", "web") ∷ []) };
      dst = record { ip = "10.0.0.9"; workload = none };
      port = 80;
      proto = 6;
      num_connections = 3;
      policy_decision = "allowed";
      draft_policy_decision = "blocked";
      last_detected = "";
    }
    ∷ []

abbrev five_seconds : ℕ
five_seconds = 5000000000

-- A PCE that completes the query after five seconds.
abbrev slow : TrafficApi ℕ
slow = record (polled "queued") {
  query_status = λ uuid w.
      (ok (record { href = ""; status = if leb five_seconds w then "completed" else "queued" }), w);
  download = λ uuid w. (ok offered, w);
}

completes :
    (w : ℕ)
    → is_completed slow
        (record { href = ""; status = if leb five_seconds w then "completed" else "queued" })
      ≡ true
    → five_seconds ≤ w
completes w h = elim (Bool-cases (leb five_seconds w)) [
  | inl e ↦ ground (arith, e)
  | inr e ↦ absurd (ground (arith, rw e at h, eq_iff "queued" "completed", eq_iff "queued" "done"))
]

abbrev AskedSlowly : String → ℕ → Type 0
AskedSlowly uuid w = uuid ≡ "42"

abbrev ReadySlowly : String → ℕ → Type 0
ReadySlowly uuid w = (uuid ≡ "42") × (five_seconds ≤ w)

abbrev OfferedSlowly : String → List WireFlow → Type 0
OfferedSlowly uuid flows = (uuid ≡ "42") × (flows ≡ offered)

slow-Answers : Answers slow AskedSlowly ReadySlowly OfferedSlowly
unfolding last_path_segment after_last_slash
slow-Answers = record {
  creates = λ body. record { run = λ w _. refl };
  reports = λ uuid. record { run = λ w h. (h, λ completed. (h, completes w completed)) };
  waits = λ uuid deadline w h. h;
  downloads = λ uuid. record { run = λ w h. (h.0, refl) };
}

query_traffic-IsResult_example :
    Triple
      (λ _. Unit)
      (IsResult slow AskedSlowly ReadySlowly OfferedSlowly slow-Answers inbound)
      (λ _. Unit)
      (query_traffic slow enough_polls inbound)
query_traffic-IsResult_example =
    query_traffic-IsResult slow AskedSlowly ReadySlowly OfferedSlowly slow-Answers enough_polls
      inbound
