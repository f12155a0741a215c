-- ===== src/Onboarding/Credentials.antt =====
-- The Secret with the credentials of the agents.
use illumio_k8s_utility_oper.Prelude.{
  String, ◌≡◌, ◌∙◌, refl, false, Option, some, arith, eq_iff, ◌==◌, string_eq, if◌then◌else◌,
}
use illumio_k8s_utility_oper.Prelude.Dict.{lookup, insert, lookup-insert}
use illumio_k8s_utility_oper.Api.Cluster.{Secret}
use illumio_k8s_utility_oper.Onboarding.{put_unless_empty, put_credentials}

-- An argument that is not empty, or else what was there.
abbrev pub kept_unless_given : String → Option String → Option String
kept_unless_given value before = if value == "" then before else some value

lookup-put_unless_empty :
    (key value wanted : String) (secret : Secret)
    → lookup wanted (put_unless_empty key value secret) ≡ (
        if key == wanted
        then kept_unless_given value (lookup wanted secret)
        else lookup wanted secret)
lookup-put_unless_empty key value wanted secret =
    ground (arith, lookup-insert key wanted value secret, eq_iff key wanted, eq_iff value "")

abbrev published : String → String → Secret → String → Option String
published pce_url cluster_id secret key =
    if "cluster_id" == key
    then some cluster_id
    else if "pce_url" == key
    then some pce_url
    else lookup key secret

abbrev with_token : String → String → Option String → Option String
with_token token key before =
    if "cluster_token" == key then kept_unless_given token before else before

abbrev with_code : String → String → Option String → Option String
with_code code key before = if "cluster_code" == key then kept_unless_given code before else before

credential_lem :
    (pce_url cluster_id token code : String) (secret : Secret) (key : String)
    → lookup key (put_credentials pce_url cluster_id token code secret)
      ≡ with_code code key (with_token token key (published pce_url cluster_id secret key))
unfolding put_credentials
credential_lem pce_url cluster_id token code secret key =
    let first = insert "pce_url" pce_url secret in
    let second = insert "cluster_id" cluster_id first in
    rw
      (
        lookup-put_unless_empty "cluster_code" code key
            (put_unless_empty "cluster_token" token second),
        lookup-put_unless_empty "cluster_token" token key second,
        lookup-insert "cluster_id" key cluster_id first,
        lookup-insert "pce_url" key pce_url secret,
      )
      refl

-- Every write publishes the address of the PCE and the identifier of the cluster. The one-time token and
-- the pairing code are replaced by an argument that is not empty, and an empty one keeps what was
-- published before; no other entry of the Secret changes.
pub lookup-put_credentials :
    (pce_url cluster_id token code : String) (secret : Secret)
    → let written = put_credentials pce_url cluster_id token code secret in
      (lookup "pce_url" written ≡ some pce_url)
      × (lookup "cluster_id" written ≡ some cluster_id)
      × (lookup "cluster_token" written ≡ kept_unless_given token (lookup "cluster_token" secret))
      × (lookup "cluster_code" written ≡ kept_unless_given code (lookup "cluster_code" secret))
      × ((key : String)
          → ("pce_url" == key) ≡ false
          → ("cluster_id" == key) ≡ false
          → ("cluster_token" == key) ≡ false
          → ("cluster_code" == key) ≡ false
          → lookup key written ≡ lookup key secret)
unfolding put_credentials
lookup-put_credentials pce_url cluster_id token code secret =
    let at = credential_lem pce_url cluster_id token code secret in
    (
      at "pce_url",
      at "cluster_id",
      at "cluster_token",
      at "cluster_code",
      λ key a b c d. at key ∙ rw (a, b, c, d) refl,
    )
