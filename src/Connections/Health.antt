-- ===== src/Connections/Health.antt =====
-- When a connection counts as connected, and when the operator stops trying.
use illumio_k8s_utility_oper.Prelude.{String, ◌≡◌, refl, ◌⊎◌, Bool, true, false, nat_eq, string_eq}
use illumio_k8s_utility_oper.Prelude.Int.{pos}
use illumio_k8s_utility_oper.Result.{Result, ok, err}
use illumio_k8s_utility_oper.Exec.{◌>>=◌, resume}
use illumio_k8s_utility_oper.Exec.Errors.{Error, Duration, api_error, rate_limited}
use illumio_k8s_utility_oper.Api.Meta.{
  ConditionApi, IsLawful, condition_true, condition_false, text,
}
use illumio_k8s_utility_oper.Api.Cluster.{Reader}
use illumio_k8s_utility_oper.Api.Connection.{PceConnection, Config}
use illumio_k8s_utility_oper.Policy.Controller.{ControlResult}
use illumio_k8s_utility_oper.Policy.Controller.Lifecycle.{ending, resume-pure}
use illumio_k8s_utility_oper.Connections.{
  requeue_healthy, Pinger, ConnectionApi, usable, classify_ping_error, load_config, put_connected,
  fail, on_ping, on_config, reconcile_connection,
}

-- The answers in which the PCE refuses the credentials.
abbrev pub RefusesCredentials : Error → Type 0
RefusesCredentials (api_error status body) = (status ≡ 401) ⊎ (status ≡ 403)
RefusesCredentials _ = ⊥

-- A rate limit whose time is 0, which asks for no further attempt.
abbrev pub LimitsForNoTime : Error → Type 0
LimitsForNoTime (rate_limited asked) = asked ≡ pos 0
LimitsForNoTime _ = ⊥

abbrev pub Waits : Error → Duration → Type 0
Waits (rate_limited asked) d = d ≡ asked
Waits _ d = d ≡ pos 30000000000

-- The status that a reconciliation writes agrees with the ping.
abbrev pub answers : {A : Type 0} → Result Error A → Bool
answers (ok a) = true
answers (err e) = false

module _ {W : Type 0} (connections : ConnectionApi W) (k8s : Reader W) (api : ConditionApi)
    (factory : Config → Pinger W) (lawful : IsLawful api) where
  -- A status that says whether the PCE is connected, for the connection's present generation.
  abbrev pub Says : Bool → PceConnection → PceConnection → Type 0
  Says b conn written =
      (api.is_condition_true written.status.conditions "Connected" ≡ b)
      × (written.status.observed_generation ≡ conn.generation)
      × (written.spec ≡ conn.spec)

  module _ (name : String) (conn : PceConnection) (cfg : Config) (w w1 w2 : W)
      (read : connections.get name w ≡ (ok conn, w1))
      (loaded : load_config connections k8s api factory conn w1 ≡ (ok (usable cfg), w2)) where
    on_ping_lem :
        (p : Result Error (Unit {0})) (v : W)
        → (written : PceConnection) × (r : ControlResult) × Says (answers p) conn written
          × (on_ping connections k8s api factory conn p v
              ≡ ending r (connections.update_status written v))
    unfolding on_ping fail ◌>>=◌
    on_ping_lem (ok u) v = (
      put_connected connections k8s api factory condition_true "Connected"
          (text "PCE reachable and credentials accepted") conn,
      record { requeue_after = requeue_healthy },
      (rw (lawful.is_condition_true_lem, lawful.find-set_self) refl, refl, refl),
      resume-pure _ _,
    )
    on_ping_lem (err e) v =
        let f = classify_ping_error e in
        (
          put_connected connections k8s api factory condition_false f.reason f.message conn,
          f.result,
          (rw (lawful.is_condition_true_lem, lawful.find-set_self) refl, refl, refl),
          resume-pure _ _,
        )

    -- Once the credentials are loaded, a reconciliation pings the PCE once and writes the status once. With
    -- condition functions that do what they document, the status says that the PCE is connected exactly
    -- if the ping succeeded, for the generation that was read.
    pub reconcile_connection-Says :
        let (p, v) = (factory cfg).ping w2 in
        (written : PceConnection) × (r : ControlResult) × Says (answers p) conn written
        × (reconcile_connection connections k8s api factory name w
            ≡ ending r (connections.update_status written v))
    unfolding reconcile_connection on_config ◌>>=◌
    reconcile_connection-Says =
        let (p, v) = (factory cfg).ping w2 in
        rw (read, resume) (rw (loaded, resume) (on_ping_lem p v))
