-- ===== src/Otl/Credential.antt =====
-- `OtlCredential` and `service_credential` of backend/services/otl_client.py: the account that the
-- requests to Oracle are signed with.
use otl_voice.Prelude.{◌||◌, Option, none, some, String, if◌then◌else◌}
use otl_voice.Python.Text.{strip, is_empty}
use otl_voice.Config.{Environ, getenv, is_demo_mode}

pub record OtlCredential : Type 0 where
  pub username : String
  pub password : String

-- `none` is its `OtlConfigError`.
unfoldable pub service_credential : Environ → Option OtlCredential
service_credential env =
    let username = strip (getenv env "OTL_SERVICE_USERNAME") in
    let password = getenv env "OTL_SERVICE_PASSWORD" in
    if is_demo_mode env
    then some (record { username = "demo-service"; password = "demo-service" })
    else if is_empty username || is_empty password
    then none
    else some (record { username = username; password = password })
