-- ===== src/Api/Connection.antt =====
-- api/v1alpha1/pceconnection_types.go, and internal/pce/client.go, Config.
use illumio_k8s_utility_oper.Prelude.{ℕ, String, List}
use illumio_k8s_utility_oper.Api.Meta.{Condition}

pub record SecretReference : Type 0 where
  pub name : String
  pub namespace : String

pub record PceConnectionSpec : Type 0 where
  pub pce_url : String
  pub org_id : ℕ
  pub credentials_secret_ref : SecretReference
  pub external_data_set : String

pub record PceConnectionStatus : Type 0 where
  pub conditions : List Condition
  pub observed_generation : ℕ

pub record PceConnection : Type 0 where
  pub name : String
  pub generation : ℕ
  pub spec : PceConnectionSpec
  pub status : PceConnectionStatus

pub record Config : Type 0 where
  pub pce_url : String
  pub org_id : ℕ
  pub api_key : String
  pub api_secret : String
