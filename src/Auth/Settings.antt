-- ===== src/Auth/Settings.antt =====
-- What backend/core/auth.py reads from the environment: the secret and the lifetime of the sessions,
-- and how their cookies are set and deleted.
pub mod Strict
use Prim.Native.String.{◌++◌ as ◌<>◌}
use otl_voice.Prelude.{
  ℕ, ◌*◌, Bool, true, false, not, ◌&&◌, ◌||◌, Option, none, some, List, [], ◌∷◌, ◌++◌, String,
  length, any, map, ltb, ◌==◌, string_eq, if◌then◌else◌,
}
use otl_voice.Prelude.Dict.{Dict, lookup, insert}
use otl_voice.Prelude.Int.{ℤ, pos}
use otl_voice.Prelude.Result.{Result, ok, err, ◌>>=◌}
use otl_voice.Python.Bytes.{Bytes}
use otl_voice.Python.Number.{parse_int}
use otl_voice.Python.Search.{lower_contains}
use otl_voice.Python.Split.{lower_is}
use otl_voice.Python.Text.{strip, is_empty}
use otl_voice.Config.{Environ, is_dev_mode, is_test_mode, is_demo_mode, is_development_or_test}

-- A `RuntimeError` of the configuration.
pub data SettingError : Type 0 where
  no_secret short_secret bad_lifetime insecure_cookie : SettingError

-- `_is_insecure_placeholder` of a text.
unfoldable pub is_insecure_placeholder : String → Bool
is_insecure_placeholder value =
    is_empty value
    || any (λ marker. lower_contains marker (strip value))
        ("replace-with" ∷ "generate_a_secure" ∷ "your_secure" ∷ "your-" ∷ "change-me" ∷ "changeme"
          ∷ [])

-- `SESSION_SECRET_KEY`, unless it is a placeholder or empty.
unfoldable pub configured_secret : Environ → Option String
configured_secret env = elim (env "SESSION_SECRET_KEY") [
  | none ↦ none
  | some secret ↦ if is_insecure_placeholder secret then none else some secret
]

-- The ephemeral secret of the process: the one it has, or a new one.
kept_secret : String → Option String → Option String × Result SettingError String
kept_secret made none = (some made, ok made)
kept_secret made (some secret) = (some secret, ok secret)

-- `_jwt_secret`, over `_fallback_jwt_secret`; `made` is the answer of `secrets.token_urlsafe`.
unfoldable pub jwt_secret :
    Environ → (String → Bytes) → String → Option String → Option String × Result SettingError String
unfolding kept_secret
jwt_secret env utf8 made fallback = elim (configured_secret env) [
  | none ↦
      if is_dev_mode env || is_test_mode env || is_demo_mode env
      then kept_secret made fallback
      else (fallback, err no_secret)
  | some secret ↦
      if not (is_development_or_test env) && ltb (length (utf8 secret)) 32
      then (fallback, err short_secret)
      else (fallback, ok secret)
]

-- `_ttl_seconds`
unfoldable pub ttl_seconds : Environ → Result SettingError ℤ
ttl_seconds env = elim (env "SESSION_TTL_SECONDS") [
  | none ↦ ok (pos (8 * 60 * 60))
  | some raw ↦ elim (parse_int raw) [ none ↦ err bad_lifetime | some seconds ↦ ok seconds ]
]

unfoldable pub cookie_secure : Environ → Bool
cookie_secure env = elim (env "SESSION_COOKIE_SECURE") [
  | none ↦ true
  | some value ↦ not (any (λ word. lower_is word (strip value)) ("0" ∷ "false" ∷ "no" ∷ "off" ∷ []))
]

abbrev pub session_cookie_name_base : String
session_cookie_name_base = "otl_session"

unfoldable pub session_cookie_name : Environ → String
session_cookie_name env =
    if cookie_secure env then "__Host-" <> session_cookie_name_base else session_cookie_name_base

pub data SameSite : Type 0 where
  lax strict cross_site : SameSite

-- The setting, of which `strict` is the default.
same_site_of : Option String → SameSite
same_site_of none = strict
same_site_of (some value) =
    if lower_is "lax" (strip value)
    then lax
    else if lower_is "none" (strip value)
    then cross_site
    else strict

checked_same_site : Bool → SameSite → Result SettingError SameSite
checked_same_site secure cross_site = if secure then ok cross_site else err insecure_cookie
checked_same_site secure lax = ok lax
checked_same_site secure strict = ok strict

-- `_session_samesite`
unfoldable pub session_samesite : Environ → Result SettingError SameSite
unfolding same_site_of checked_same_site
session_samesite env =
    checked_same_site (cookie_secure env) (same_site_of (env "SESSION_COOKIE_SAMESITE"))

-- A call of `Response.set_cookie`, or of `Response.delete_cookie` where there is no value; the path is
-- always "/".
pub record CookieCall : Type 0 where
  pub name : String
  pub value : Option String
  pub httponly : Bool
  pub secure : Bool
  pub samesite : SameSite
  pub max_age : Option ℤ

-- What is done to a response.
pub record Response : Type 0 where
  pub cookies : List CookieCall
  pub headers : Dict String

abbrev pub no_response : Response
no_response = record { cookies = []; headers = [] }

abbrev add_cookies : List CookieCall → Response → Response
add_cookies calls r = record r { cookies = r.cookies ++ calls }

abbrev pub set_header : String → String → Response → Response
set_header name value r = record r { headers = insert name value r.headers }

module _ (env : Environ) where
  set_call : String → String → Bool → SameSite → ℤ → CookieCall
  set_call name value httponly samesite max_age = record {
    name = name;
    value = some value;
    httponly = httponly;
    secure = cookie_secure env;
    samesite = samesite;
    max_age = some max_age;
  }

  -- `set_csrf_cookie`
  unfoldable pub set_csrf_cookie : String → String → Response → Result SettingError Response
  unfolding set_call
  set_csrf_cookie token name r = session_samesite env >>= (λ samesite.
      ttl_seconds env >>= (λ max_age. ok (
        set_header "X-CSRF-Token" token
          (add_cookies (set_call name token false samesite max_age ∷ []) r))))

  -- `set_auth_cookies`
  unfoldable pub set_auth_cookies :
      String → String → String → Response → Result SettingError Response
  unfolding set_call
  set_auth_cookies session_token csrf_token csrf_name r = ttl_seconds env >>= (λ max_age.
      session_samesite env >>= (λ samesite.
        set_csrf_cookie csrf_token csrf_name (
          add_cookies (set_call (session_cookie_name env) session_token true samesite max_age ∷ [])
            r)
        >>= (λ done.
            ok (set_header "Pragma" "no-cache" (set_header "Cache-Control" "no-store" done)))))

  delete_call : Bool → SameSite → String → CookieCall
  delete_call httponly samesite name = record {
    name = name;
    value = none;
    httponly = httponly;
    secure = cookie_secure env;
    samesite = samesite;
    max_age = none;
  }

  -- `clear_auth_cookies`; the name in use is one of the two names.
  unfoldable pub clear_auth_cookies : String → Response → Result SettingError Response
  unfolding delete_call
  clear_auth_cookies csrf_name r = session_samesite env >>= (λ samesite. ok (
      set_header "Cache-Control" "no-store" (
        add_cookies
          (map (delete_call true samesite)
              (session_cookie_name_base ∷ ("__Host-" <> session_cookie_name_base) ∷ [])
            ++ delete_call false samesite csrf_name ∷ [])
          r)))

  first_named : List String → Dict String → Option String
  first_named [] cookies = none
  first_named (name ∷ names) cookies =
      let rest = first_named names cookies in
      elim (lookup name cookies) [
        | none ↦ rest
        | some value ↦ if is_empty value then rest else some value
      ]

  -- `session_cookie_token` of the cookies of a request; an empty one at the end is as good as none,
  -- since every caller asks for the truth of it.
  unfoldable pub session_cookie_token : Dict String → Option String
  unfolding first_named
  session_cookie_token cookies =
      first_named
        (session_cookie_name env
          ∷ session_cookie_name_base
          ∷ ("__Host-" <> session_cookie_name_base)
          ∷ [])
        cookies
