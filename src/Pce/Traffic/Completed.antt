-- ===== src/Pce/Traffic/Completed.antt =====
-- What a traffic query returns: flows that the PCE offers for a query that it has completed.
use illumio_k8s_utility_oper.Prelude.{
  ℕ, zero, suc, ◌+◌, ◌≤◌, ◌≡◌, ◌↔◌, refl, String, Bool, true, Option, none, some, List, length, map,
  length-map, arith, ◌==◌, string_eq,
}
use illumio_k8s_utility_oper.Result.{ok, err}
use illumio_k8s_utility_oper.Exec.{Exec, raise}
use illumio_k8s_utility_oper.Exec.Errors.{wrapped, request_failed}
use illumio_k8s_utility_oper.Exec.Triple.{
  Any, Ends, Triple, Triple-pure, Triple-raise, Triple-if, Triple-bind, Triple-caught_value,
}
use illumio_k8s_utility_oper.Pce.Traffic.{
  TrafficQuery, TrafficQueryBody, TrafficFlow, WireFlow, Wait, again, expired, cancelled,
  TrafficApi, poll_time, effective_max, wrapping, query_body, flow_of, last_path_segment,
  is_completed, after_wait, on_status, poll, downloaded, on_polled, on_created, query_traffic,
}

-- A query goes by the last segment of the path that its creation answers with. It stays asked while it is
-- polled, it is ready when its status is a completed one, and then its flows are offered.
pub record Answers {W : Type 0} (api : TrafficApi W) (Asked Ready : String → W → Type 0)
    (Offered : String → List WireFlow → Type 0) : Type 0 where
  pub creates :
      (body : TrafficQueryBody)
      → Triple Any (λ st. Asked (last_path_segment st.href)) Any (api.create_query body)
  pub reports :
      (uuid : String)
      → Triple
          (Asked uuid)
          (λ st w. Asked uuid w × (is_completed api st ≡ true → Ready uuid w))
          Any
          (api.query_status uuid)
  pub waits :
      (uuid : String) (deadline : ℕ) (w : W) → Asked uuid w → Asked uuid (api.wait deadline w).1
  pub downloads :
      (uuid : String) → Triple (Ready uuid) (λ flows w. Offered uuid flows) Any (api.download uuid)

module _ {W : Type 0} (api : TrafficApi W) (Asked Ready : String → W → Type 0)
    (Offered : String → List WireFlow → Type 0) (answers : Answers api Asked Ready Offered) where
  wrapping-Triple :
      {A : Type 0} (P : W → Type 0) (Q : A → W → Type 0) (text : String) (m : Exec W A)
      → Triple P Q Any m
      → Triple P Q Any (wrapping text m)
  unfolding wrapping
  wrapping-Triple P Q text m k =
      Triple-bind P (λ r w. Ends Q Any (r, w)) Q Any _ _ (Triple-caught_value P Q Any m k)
        (elim [
          | ok a ↦ Triple-pure _ _ _ a λ w h. h
          | err e ↦ Triple-raise _ _ _ (wrapped text e) λ w h. h
        ])

  -- The loop stops on its own only when the query is ready.
  abbrev Polled : String → Option (Unit {0}) → W → Type 0
  Polled uuid none w = Unit
  Polled uuid (some u) w = Ready uuid w

  after_wait-Ends :
      (uuid : String) (rest : Exec W (Option (Unit {0}))) (t : Wait × W)
      → Asked uuid t.1
      → Triple (Asked uuid) (Polled uuid) Any rest
      → Ends (Polled uuid) Any (after_wait api uuid rest t)
  unfolding after_wait raise
  after_wait-Ends uuid rest (again, w) h k = k.run w h
  after_wait-Ends uuid rest (expired, w) h k = tt
  after_wait-Ends uuid rest (cancelled e, w) h k = tt

  poll-Triple :
      (fuel : ℕ) (uuid : String) (deadline : ℕ)
      → Triple (Asked uuid) (Polled uuid) Any (poll api fuel uuid deadline)
  unfolding poll on_status
  poll-Triple zero uuid deadline = Triple-pure _ _ _ none λ w h. tt
  poll-Triple (suc fuel) uuid deadline =
      Triple-bind _ (λ st w. Asked uuid w × (is_completed api st ≡ true → Ready uuid w)) _ _ _ _
        (wrapping-Triple _ _ _ _ (answers.reports uuid))
        (λ st.
          Triple-if _ _ _ (is_completed api st) _ _
            (λ completed. Triple-pure _ _ _ (some tt) λ w h. h.1 completed)
            (λ waiting. record {
              run = λ w h.
                  after_wait-Ends uuid _ (api.wait deadline w) (answers.waits uuid deadline w h.0)
                    (poll-Triple fuel uuid deadline);
            }))

  -- The flows that are offered under an identifier, one for one, and whether they reach the maximum.
  abbrev pub IsResult : TrafficQuery → Option (List TrafficFlow × Bool) → W → Type 0
  IsResult q none w = Unit
  IsResult q (some (flows, truncated)) w =
      (uuid : String) × (offered : List WireFlow) × Offered uuid offered
      × (flows ≡ map (flow_of api) offered)
      × ((truncated ≡ true) ↔ (effective_max q.max_results ≤ length offered))

  on_polled-Triple :
      (q : TrafficQuery) (uuid : String) (o : Option (Unit {0}))
      → Triple (Polled uuid o) (IsResult q) Any (on_polled api q uuid o)
  unfolding on_polled downloaded
  on_polled-Triple q uuid none = Triple-pure _ _ _ none λ w h. tt
  on_polled-Triple q uuid (some u) =
      Triple-bind _ (λ flows w. Offered uuid flows) _ _ _ _
        (wrapping-Triple _ _ _ _ (answers.downloads uuid))
        (λ flows.
          Triple-pure _ _ _ _
            λ w h. (uuid, flows, h, refl, rw (length-map (flow_of api) flows) (ground arith)))

  -- Whatever the number of polls, the flows that a traffic query returns were downloaded for a query that
  -- the PCE had reported as completed, and they are the offered ones, one for one. They are reported as
  -- truncated exactly if they reach the effective maximum.
  pub query_traffic-IsResult :
      (fuel : ℕ) (q : TrafficQuery) → Triple Any (IsResult q) Any (query_traffic api fuel q)
  unfolding query_traffic on_created
  query_traffic-IsResult fuel q =
      Triple-bind _ (λ st. Asked (last_path_segment st.href)) _ _ _ _
        (wrapping-Triple _ _ _ _ (answers.creates (query_body api q)))
        (λ st.
          let uuid = last_path_segment st.href in
          Triple-if _ _ _ (uuid == "") _ _
            (λ unnamed.
              Triple-raise _ _ _ (request_failed "traffic query returned no href") λ w h. tt)
            (λ named.
              Triple-bind _ (Polled uuid) _ _ _ _
                (record { run = λ w h. (poll-Triple fuel uuid (api.now w + poll_time)).run w h })
                (on_polled-Triple q uuid)))
