-- ===== src/Connections.antt =====
-- internal/controller/pceconnection_controller.go: a PCEConnection reports whether the PCE can be
-- reached with its credentials.
pub mod Health
use illumio_k8s_utility_oper.Prelude.{
  ℕ, ◌*◌, String, Bool, true, false, ◌||◌, List, ◌==◌, string_eq, nat_eq, if◌then◌else◌,
}
use illumio_k8s_utility_oper.Prelude.Int.{pos}
use illumio_k8s_utility_oper.Prelude.Dict.{get}
use illumio_k8s_utility_oper.Result.{Result, ok, err}
use illumio_k8s_utility_oper.Exec.{Exec, pure, raise, try, ◌>>=◌, ◌>>◌}
use illumio_k8s_utility_oper.Exec.Errors.{
  Error, Duration, api_error, rate_limited, is_kube_not_found,
}
use illumio_k8s_utility_oper.Api.Meta.{
  ConditionApi, ConditionStatus, condition_true, condition_false, Message, text, about_error,
}
use illumio_k8s_utility_oper.Api.Cluster.{Reader, Secret}
use illumio_k8s_utility_oper.Api.Connection.{PceConnection, Config}
use illumio_k8s_utility_oper.Policy.Backend.{seconds}
use illumio_k8s_utility_oper.Policy.Controller.{ControlResult}

abbrev pub requeue_secret_missing : Duration
requeue_secret_missing = seconds 60

abbrev pub requeue_unreachable : Duration
requeue_unreachable = seconds 30

abbrev pub requeue_healthy : Duration
requeue_healthy = seconds 300

-- `PCEPinger`, made by the factory.
pub record Pinger (W : Type 0) : Type 0 where
  pub ping : Exec W (Unit {0})

-- The calls on the PCEConnection itself.
pub record ConnectionApi (W : Type 0) : Type 0 where
  pub get : String → Exec W PceConnection
  pub update_status : PceConnection → Exec W (Unit {0})

pub data Loaded : Type 0 where
  usable : Config → Loaded
  unusable : String → Message → Loaded

-- What a failed ping comes to: the next attempt, and the reason and message of the condition.
pub record PingFailure : Type 0 where
  pub result : ControlResult
  pub reason : String
  pub message : Message

-- The switch is on the error itself, not on what it wraps.
unfoldable pub classify_ping_error : Error → PingFailure
classify_ping_error (rate_limited d) = record {
  result = record { requeue_after = d };
  reason = "RateLimited";
  message = about_error "%s" (rate_limited d);
}
classify_ping_error (api_error status body) =
    if status == 401 || status == 403
    then record {
      result = record { requeue_after = pos 0 };
      reason = "AuthFailed";
      message = about_error "%s" (api_error status body);
    }
    else record {
      result = record { requeue_after = requeue_unreachable };
      reason = "PCEUnreachable";
      message = about_error "%s" (api_error status body);
    }
classify_ping_error e = record {
  result = record { requeue_after = requeue_unreachable };
  reason = "PCEUnreachable";
  message = about_error "%s" e;
}

config_of : PceConnection → Secret → Loaded
config_of conn secret =
    let api_key = get secret "api_key" in
    let api_secret = get secret "api_secret" in
    if api_key == "" || api_secret == ""
    then unusable "SecretMissing" (text "secret missing api_key or api_secret")
    else usable (record {
      pce_url = conn.spec.pce_url;
      org_id = conn.spec.org_id;
      api_key = api_key;
      api_secret = api_secret;
    })

module _ {W : Type 0} (connections : ConnectionApi W) (k8s : Reader W) (api : ConditionApi)
    (factory : Config → Pinger W) where
  on_secret : PceConnection → Result Error Secret → Exec W Loaded
  on_secret conn (ok secret) = pure (config_of conn secret)
  on_secret conn (err e) =
      if is_kube_not_found e
      then pure (unusable "SecretMissing" (text "credentials secret not found"))
      else raise e

  unfoldable pub load_config : PceConnection → Exec W Loaded
  unfolding config_of on_secret
  load_config conn = do
    s ← try (
        k8s.get_secret conn.spec.credentials_secret_ref.namespace
          conn.spec.credentials_secret_ref.name)
    on_secret conn s

  -- The connection with its Connected condition set, and its generation as observed.
  abbrev pub put_connected : ConditionStatus → String → Message → PceConnection → PceConnection
  put_connected status reason message conn = record conn {
    status = record {
      conditions = api.set_condition conn.status.conditions (record {
        kind = "Connected";
        status = status;
        reason = reason;
        message = message;
        observed_generation = conn.generation;
      });
      observed_generation = conn.generation;
    };
  }

  fail : PceConnection → String → Message → ControlResult → Exec W ControlResult
  fail conn reason message result = do
    connections.update_status (put_connected condition_false reason message conn)
    pure result

  on_ping : PceConnection → Result Error (Unit {0}) → Exec W ControlResult
  on_ping conn (ok u) = do
    connections.update_status (
        put_connected condition_true "Connected" (text "PCE reachable and credentials accepted")
          conn)
    pure (record { requeue_after = requeue_healthy })
  on_ping conn (err e) = let f = classify_ping_error e in fail conn f.reason f.message f.result

  on_config : PceConnection → Loaded → Exec W ControlResult
  on_config conn (unusable reason message) =
      fail conn reason message (record { requeue_after = requeue_secret_missing })
  on_config conn (usable cfg) = do p ← try (factory cfg).ping; on_ping conn p

  unfoldable pub reconcile_connection : String → Exec W ControlResult
  unfolding fail on_ping on_config
  reconcile_connection name = do
    r ← try (connections.get name)
    elim r [
      | err e ↦ if is_kube_not_found e then pure (record { requeue_after = pos 0 }) else raise e
      | ok conn ↦ do cfg ← load_config conn; on_config conn cfg
    ]
