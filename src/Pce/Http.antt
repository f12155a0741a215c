-- ===== src/Pce/Http.antt =====
-- internal/pce/client.go: one exchange with the PCE. `net/http`, `encoding/json` and `strconv.Atoi`
-- are parameters.
pub mod Answers
use illumio_k8s_utility_oper.Prelude.{
  ℕ, suc, ◌+◌, ◌-◌, ◌*◌, ◌%◌, ◌^◌, String, ◌<>◌, Bool, true, false, ◌||◌, Option, none, some, leb,
  ltb, ◌==◌, nat_eq, string_eq, decimal, if◌then◌else◌,
}
use illumio_k8s_utility_oper.Prelude.Int.{ℤ, pos, times_int64}
use illumio_k8s_utility_oper.Result.{Result, ok, err}
use illumio_k8s_utility_oper.Exec.{Exec, pure, raise, try, ◌>>=◌}
use illumio_k8s_utility_oper.Exec.Errors.{Error, Duration, api_error, rate_limited, wrapped}
use illumio_k8s_utility_oper.Api.Connection.{Config}

-- `Client`, without the HTTP client that it holds.
pub record Client : Type 0 where
  pub base_url : String
  pub org_id : ℕ
  pub api_key : String
  pub api_secret : String

unfoldable pub new_client : Config → Client
new_client cfg = record {
  base_url = "https://" <> cfg.pce_url;
  org_id = cfg.org_id;
  api_key = cfg.api_key;
  api_secret = cfg.api_secret;
}

unfoldable pub org_path : Client → String → String
org_path c suffix = "/orgs/" <> decimal c.org_id <> suffix

pub record HttpRequest : Type 0 where
  pub method : String
  pub url : String
  pub user : String
  pub password : String
  pub content_type : Option String
  pub accept : String
  pub payload : Option String

pub record Response : Type 0 where
  pub status : ℕ
  -- the header, or the empty text
  pub retry_after : String
  pub body : String

pub record Http (W : Type 0) : Type 0 where
  -- `http.NewRequestWithContext`: why a request cannot be built
  pub refuses : HttpRequest → Option Error
  pub send : HttpRequest → Exec W Response

-- `time.Duration(secs) * time.Second`
unfoldable pub times_second : ℤ → Duration
times_second secs = times_int64 secs 1000000000

abbrev pub default_retry_after : Duration
default_retry_after = pos 30000000000

module _ (atoi : String → Option ℤ) where
  unfoldable pub parse_retry_after : String → Duration
  parse_retry_after h =
      if h == ""
      then default_retry_after
      else elim (atoi h) [ none ↦ default_retry_after | some secs ↦ times_second secs ]

  -- What an answer comes to: its body, or an error.
  unfoldable pub receive : Response → Result Error String
  receive r =
      if r.status == 429
      then err (rate_limited (parse_retry_after r.retry_after))
      else if ltb r.status 200 || leb 300 r.status
      then err (api_error r.status r.body)
      else ok r.body

  module _ {W : Type 0} (http : Http W) (c : Client) where
    abbrev build : String → String → Option String → HttpRequest
    build method path payload = record {
      method = method;
      url = c.base_url <> "/api/v2" <> path;
      user = c.api_key;
      password = c.api_secret;
      content_type = elim payload [ none ↦ none | some text ↦ some "application/json" ];
      accept = "application/json";
      payload = payload;
    }

    on_response : {A : Type 0} → A → (String → Result Error A) → Result Error String → Exec W A
    on_response zero_value decode (err e) = raise e
    on_response zero_value decode (ok text) =
        if text == ""
        then pure zero_value
        else elim (decode text) [ ok a ↦ pure a | err e ↦ raise (wrapped "decode response" e) ]

    on_sent : {A : Type 0} → A → (String → Result Error A) → Result Error Response → Exec W A
    on_sent zero_value decode (err e) = raise (wrapped "pce request" e)
    on_sent zero_value decode (ok r) = on_response zero_value decode (receive r)

    send_payload :
        {A : Type 0} → A → (String → Result Error A) → String → String → Option String → Exec W A
    unfolding on_response on_sent
    send_payload zero_value decode method path payload =
        let request = build method path payload in
        elim (http.refuses request) [
          | some e ↦ raise (wrapped "build request" e)
          | none ↦ do r ← try (http.send request); on_sent zero_value decode r
        ]

    -- `do`: `body` is what `json.Marshal` makes of the body, if there is one; `decode` reads the answer into
    -- an `out` that holds `zero_value`.
    unfoldable pub exchange :
        {A : Type 0}
        → A
        → (String → Result Error A)
        → String
        → String
        → Option (Result Error String)
        → Exec W A
    unfolding send_payload
    exchange zero_value decode method path none = send_payload zero_value decode method path none
    exchange zero_value decode method path (some (ok text)) =
        send_payload zero_value decode method path (some text)
    exchange zero_value decode method path (some (err e)) = raise (wrapped "marshal request" e)

    unfoldable pub ping : Exec W (Unit {0})
    unfolding org_path
    ping = exchange tt (λ text. ok tt) "GET" (org_path c "/labels") none
