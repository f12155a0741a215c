-- ===== src/Pce/Traffic/Polling.antt =====
-- The polling of a traffic query ends: 46 polls are enough for its deadline of 90 seconds.
use illumio_k8s_utility_oper.Prelude.{
  ℕ, zero, suc, ◌+◌, ◌*◌, ◌≤◌, ◌<◌, ◌≡◌, ◌≢◌, ◌⊎◌, inl, inr, refl, String, Option, none, some,
  Bool-cases, arith, ◌==◌, string_eq,
}
use illumio_k8s_utility_oper.Result.{Result, ok, err}
use illumio_k8s_utility_oper.Exec.{Exec, pure, raise, resume, ◌>>=◌}
use illumio_k8s_utility_oper.Exec.Errors.{Error, wrapped}
use illumio_k8s_utility_oper.Pce.Traffic.{
  TrafficQuery, Wait, again, expired, cancelled, TrafficApi, two_seconds, poll_time, wrapping,
  query_body, last_path_segment, is_completed, after_wait, on_status, poll, downloaded, on_polled,
  on_created, query_traffic,
}

abbrev pub enough_polls : ℕ
enough_polls = 46

-- What is documented of clocks and timers: time does not run backwards, two seconds pass before the
-- next poll, and from the deadline on there is none.
pub record IsLawful {W : Type 0} (api : TrafficApi W) : Type 0 where
  pub status-now : (uuid : String) (w : W) → api.now w ≤ api.now (api.query_status uuid w).1
  pub wait-again :
      (deadline : ℕ) (w : W)
      → (api.wait deadline w).0 ≡ again
      → (api.now w < deadline) × (api.now w + two_seconds ≤ api.now (api.wait deadline w).1)

-- The outcome of a run that has not used up its fuel.
abbrev pub Ends : {A : Type 0} → Result Error (Option A) → Type 0
Ends (ok none) = ⊥
Ends _ = Unit

Wait-cases : (x : Wait) → (x ≡ again) ⊎ (x ≢ again)
Wait-cases again = inl refl
Wait-cases expired = inr (λ h. cc h)
Wait-cases (cancelled e) = inr (λ h. cc h)

module _ {W A B : Type 0} (P : Result Error B × W → Type 0) (text : String) (f : A → Exec W B) where
  wrapped_step :
      (r : Result Error A) (w : W)
      → ((a : A) → r ≡ ok a → P (f a w))
      → ((e : Error) → P (err (wrapped text e), w))
      → P ((wrapping text (λ v. (r, v)) >>= f) w)
  unfolding wrapping ◌>>=◌
  wrapped_step (ok a) w ha he = ha a refl
  wrapped_step (err e) w ha he = he e

  -- A wrapped call, by its outcome.
  wrapped_call :
      (m : Exec W A) (w : W)
      → ((a : A) → (m w).0 ≡ ok a → P (f a (m w).1))
      → ((e : Error) → P (err (wrapped text e), (m w).1))
      → P ((wrapping text m >>= f) w)
  unfolding wrapping ◌>>=◌
  wrapped_call m w ha he = wrapped_step (m w).0 (m w).1 ha he

module _ {W : Type 0} (api : TrafficApi W) where
  after_wait-Ends :
      (uuid : String) (rest : Exec W (Option (Unit {0}))) (x : Wait) (w : W)
      → (x ≡ again → Ends (rest w).0)
      → Ends (after_wait api uuid rest (x, w)).0
  unfolding after_wait raise
  after_wait-Ends uuid rest again w h = h refl
  after_wait-Ends uuid rest expired w h = tt
  after_wait-Ends uuid rest (cancelled e) w h = tt

  module _ (lawful : IsLawful api) (uuid : String) (deadline : ℕ) where
    poll-Ends :
        (fuel : ℕ) (w : W)
        → 0 < fuel
        → deadline + two_seconds ≤ api.now w + fuel * two_seconds
        → Ends (poll api fuel uuid deadline w).0
    unfolding poll on_status pure
    poll-Ends zero w positive enough = ground (arith, positive)
    poll-Ends (suc fuel) w positive enough =
        let v = (api.query_status uuid w).1 in
        let t = api.wait deadline v in
        wrapped_call (λ r. Ends r.0) "poll traffic query"
          (on_status api (poll api fuel uuid deadline) uuid deadline) (api.query_status uuid) w
          (λ st _. elim (Bool-cases (is_completed api st)) [
            | inl h ↦ rw h tt
            | inr k ↦ rw k (
                after_wait-Ends uuid (poll api fuel uuid deadline) t.0 t.1 (λ h.
                  let (before, later) = lawful.wait-again deadline v h in
                  let earlier = lawful.status-now uuid w in
                  poll-Ends fuel t.1 (omega (arith, positive, enough, before, earlier))
                    (omega (arith, enough, earlier, later))))
          ])
          (λ e. tt)

  on_polled-Ends :
      (q : TrafficQuery) (uuid : String) (r : Result Error (Option (Unit {0}))) (w : W)
      → Ends r
      → Ends (resume r (on_polled api q uuid) w).0
  unfolding on_polled downloaded pure
  on_polled-Ends q uuid (err e) w h = tt
  on_polled-Ends q uuid (ok none) w h = h
  on_polled-Ends q uuid (ok (some u)) w h =
      wrapped_call (λ r. Ends r.0) "download traffic query" (downloaded api q) (api.download uuid) w
        (λ flows _. tt) (λ e. tt)

  on_created-Ends :
      IsLawful api
      → (q : TrafficQuery) (uuid : String) (w : W) → Ends (on_created api enough_polls q uuid w).0
  unfolding on_created ◌>>=◌ raise
  on_created-Ends lawful q uuid w = elim (Bool-cases (uuid == "")) [
    | inl h ↦ rw h tt
    | inr k ↦
        let deadline = api.now w + poll_time in
        let (r, v) = poll api enough_polls uuid deadline w in
        rw k (
          on_polled-Ends q uuid r v
            (poll-Ends lawful uuid deadline enough_polls w (omega arith) (omega arith)))
  ]

  -- With timers that do what they document, a traffic query comes to an end: 46 polls of its status are
  -- enough for a result or an error, whatever the PCE answers.
  pub query_traffic-Ends :
      IsLawful api → (q : TrafficQuery) (w : W) → Ends (query_traffic api enough_polls q w).0
  unfolding query_traffic
  query_traffic-Ends lawful q w =
      wrapped_call (λ r. Ends r.0) "create traffic query"
        (λ created. on_created api enough_polls q (last_path_segment created.href))
        (api.create_query (query_body api q)) w
        (λ created _.
          on_created-Ends lawful q (last_path_segment created.href)
            (api.create_query (query_body api q) w).1)
        (λ e. tt)
