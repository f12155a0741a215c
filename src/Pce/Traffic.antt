-- ===== src/Pce/Traffic.antt =====
-- internal/pce/traffic.go: observed flows, their policy decisions, and the asynchronous query for them.
-- The exchanges, the formats of times and the timers are parameters.
pub mod Polling
pub mod Completed
use illumio_k8s_utility_oper.Prelude.{
  ℕ, zero, suc, ◌+◌, ◌*◌, String, ◌<>◌, Bool, true, false, ◌||◌, Option, none, some, List, [], ◌∷◌,
  map, length, leb, after_last_slash, or_else, ◌==◌, string_eq, is_empty, if◌then◌else◌,
}
use illumio_k8s_utility_oper.Prelude.Int.{ℤ, pos, negsuc}
use illumio_k8s_utility_oper.Prelude.Dict.{Dict, Labels, insert}
use illumio_k8s_utility_oper.Result.{Result, ok, err}
use illumio_k8s_utility_oper.Exec.{Exec, pure, raise, try, ◌>>=◌}
use illumio_k8s_utility_oper.Exec.Errors.{Error, wrapped, request_failed}
use illumio_k8s_utility_oper.Api.Insight.{Time}
use illumio_k8s_utility_oper.Pce.Objects.{LabelRef}

abbrev pub decision_allowed : String
decision_allowed = "allowed"

abbrev pub decision_potentially_blocked : String
decision_potentially_blocked = "potentially_blocked"

abbrev pub decision_blocked : String
decision_blocked = "blocked"

pub record TrafficQuery : Type 0 where
  pub query_name : String
  pub source_label_hrefs : List String
  pub destination_label_hrefs : List String
  pub from : Time
  pub to : Time
  pub max_results : ℤ

pub record TrafficFlow : Type 0 where
  pub src_labels : Labels
  pub dst_labels : Labels
  pub src_ip : String
  pub dst_ip : String
  pub port : ℕ
  pub protocol : ℕ
  pub policy_decision : String
  pub draft_policy_decision : String
  -- an `int`, as its pattern of 64 bits
  pub connections : ℕ
  pub last_detected : Time

-- The wire types.
pub record TrafficActorSet : Type 0 where
  pub include : List (List LabelRef)
  pub exclude : List LabelRef

pub record TrafficQueryBody : Type 0 where
  pub query_name : String
  pub start_date : String
  pub end_date : String
  pub sources : TrafficActorSet
  pub destinations : TrafficActorSet
  pub policy_decisions : List String
  pub max_results : ℕ

pub record AsyncQueryStatus : Type 0 where
  pub href : String
  pub status : String

pub record WireEndpoint : Type 0 where
  pub ip : String
  -- the labels of the workload, if there is one
  pub workload : Option (List (String × String))

pub record WireFlow : Type 0 where
  pub src : WireEndpoint
  pub dst : WireEndpoint
  pub port : ℕ
  pub proto : ℕ
  pub num_connections : ℕ
  pub policy_decision : String
  pub draft_policy_decision : String
  pub last_detected : String

unfoldable pub label_actors : List String → List (List LabelRef)
label_actors [] = []
label_actors (h ∷ hrefs) = map (λ href. record { href = href }) (h ∷ hrefs) ∷ []

put_labels : List (String × String) → Labels → Labels
put_labels [] m = m
put_labels ((k, v) ∷ labels) m = put_labels labels (insert k v m)

unfoldable pub endpoint_labels : WireEndpoint → Labels
unfolding put_labels
endpoint_labels e = elim e.workload [ none ↦ [] | some labels ↦ put_labels labels [] ]

-- `lastPathSegment`
unfoldable pub last_path_segment : String → String
last_path_segment s = or_else s (after_last_slash s)

-- How the wait between two polls ends: after two seconds, at the deadline, or with the context's error.
pub data Wait : Type 0 where
  again : Wait
  expired : Wait
  cancelled : Error → Wait

-- The exchanges and the timers that a query uses. A point in time here is a number of nanoseconds.
pub record TrafficApi (W : Type 0) : Type 0 where
  pub create_query : TrafficQueryBody → Exec W AsyncQueryStatus
  pub query_status : String → Exec W AsyncQueryStatus
  pub download : String → Exec W (List WireFlow)
  pub now : W → ℕ
  -- the `select`, for the deadline
  pub wait : ℕ → W → Wait × W
  -- `Format(time.RFC3339)` and `time.Parse`, whose error is dropped
  pub format_time : Time → String
  pub parse_time : String → Time

abbrev pub two_seconds : ℕ
two_seconds = 2000000000

abbrev pub poll_time : ℕ
poll_time = 90000000000

abbrev pub effective_max : ℤ → ℕ
effective_max (negsuc n) = 10000
effective_max (pos n) = if leb n 0 then 10000 else n

-- An error, wrapped with a text.
wrapping : {W A : Type 0} → String → Exec W A → Exec W A
wrapping text m = do r ← try m; elim r [ ok a ↦ pure a | err e ↦ raise (wrapped text e) ]

abbrev no_actors : List (List LabelRef) → TrafficActorSet
no_actors include = record { include = include; exclude = [] }

module _ {W : Type 0} (api : TrafficApi W) where
  abbrev pub query_body : TrafficQuery → TrafficQueryBody
  query_body q = record {
    query_name = q.query_name;
    start_date = api.format_time q.from;
    end_date = api.format_time q.to;
    sources = no_actors (label_actors q.source_label_hrefs);
    destinations = no_actors (label_actors q.destination_label_hrefs);
    policy_decisions = [];
    max_results = effective_max q.max_results;
  }

  abbrev pub flow_of : WireFlow → TrafficFlow
  flow_of f = record {
    src_labels = endpoint_labels f.src;
    dst_labels = endpoint_labels f.dst;
    src_ip = f.src.ip;
    dst_ip = f.dst.ip;
    port = f.port;
    protocol = f.proto;
    policy_decision = f.policy_decision;
    draft_policy_decision = f.draft_policy_decision;
    connections = f.num_connections;
    last_detected = api.parse_time f.last_detected;
  }

  abbrev pub is_completed : AsyncQueryStatus → Bool
  is_completed st = st.status == "completed" || st.status == "done"

  after_wait : String → Exec W (Option (Unit {0})) → Wait × W → Result Error (Option (Unit {0})) × W
  after_wait uuid rest (again, w) = rest w
  after_wait uuid rest (expired, w) =
      raise (request_failed ("traffic query " <> uuid <> " did not complete in time")) w
  after_wait uuid rest (cancelled e, w) = raise e w

  on_status :
      Exec W (Option (Unit {0})) → String → ℕ → AsyncQueryStatus → Exec W (Option (Unit {0}))
  unfolding after_wait
  on_status rest uuid deadline st =
      if is_completed st then pure (some tt) else λ w. after_wait uuid rest (api.wait deadline w)

  -- The loop, on fuel; `none` says that the fuel has run out.
  poll : ℕ → String → ℕ → Exec W (Option (Unit {0}))
  unfolding on_status wrapping
  poll zero uuid deadline = pure none
  poll (suc fuel) uuid deadline =
      let rest = poll fuel uuid deadline in
      do st ← wrapping "poll traffic query" (api.query_status uuid); on_status rest uuid deadline st

  downloaded : TrafficQuery → List WireFlow → Exec W (Option (List TrafficFlow × Bool))
  downloaded q flows =
      let out = map flow_of flows in
      pure (some (out, leb (effective_max q.max_results) (length out)))

  on_polled : TrafficQuery → String → Option (Unit {0}) → Exec W (Option (List TrafficFlow × Bool))
  unfolding wrapping downloaded
  on_polled q uuid none = pure none
  on_polled q uuid (some u) = do
    flows ← wrapping "download traffic query" (api.download uuid)
    downloaded q flows

  on_created : ℕ → TrafficQuery → String → Exec W (Option (List TrafficFlow × Bool))
  unfolding poll on_polled
  on_created fuel q uuid =
      if uuid == ""
      then raise (request_failed "traffic query returned no href")
      else do p ← λ w. poll fuel uuid (api.now w + poll_time) w; on_polled q uuid p

  unfoldable pub query_traffic : ℕ → TrafficQuery → Exec W (Option (List TrafficFlow × Bool))
  unfolding wrapping on_created
  query_traffic fuel q = do
    created ← wrapping "create traffic query" (api.create_query (query_body q))
    on_created fuel q (last_path_segment created.href)
