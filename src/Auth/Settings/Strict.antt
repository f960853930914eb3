-- ===== src/Auth/Settings/Strict.antt =====
-- What the settings of the sessions hold outside development, and what is left of the cookies.
use Prim.Native.String.{◌++◌ as ◌<>◌}
use otl_voice.Prelude.{
  ◌≤◌, ◌≡◌, Bool, true, false, Option, none, some, [], ◌∷◌, ◌++◌, String, arith, length, any,
  any-append, map, ltb, ◌==◌, string_eq, eq_refl, Option-cases, Bool-cases, if-eq, inl, inr,
}
use otl_voice.Prelude.Result.{ok, >>=-eq-ok}
use otl_voice.Python.Bytes.{Bytes}
use otl_voice.Config.{Environ, is_dev_mode, is_test_mode, is_demo_mode, is_development_or_test}
use otl_voice.Auth.Settings.{
  is_insecure_placeholder, configured_secret, jwt_secret, cookie_secure, session_cookie_name,
  session_cookie_name_base, SameSite, lax, strict, cross_site, session_samesite, same_site_of,
  checked_same_site, CookieCall, Response, clear_auth_cookies, delete_call,
}

configured_secret-given :
    (env : Environ) (secret : String)
    → configured_secret env ≡ some secret
    → (env "SESSION_SECRET_KEY" ≡ some secret) × (is_insecure_placeholder secret ≡ false)
unfolding configured_secret
configured_secret-given env secret h = elim (Option-cases (env "SESSION_SECRET_KEY")) [
  | inl unset ↦ absurd (cc (rw (configured_secret, unset) at h))
  | inr (raw, e) ↦
      elim (if-eq (is_insecure_placeholder raw) none (some raw) (some secret)
        (rw (configured_secret, e) at h)) [
          | inl (weak, nothing) ↦ absurd (cc nothing)
          | inr (strong, found) ↦
              let same : raw ≡ secret = ground (arith, found) in rw (← same) (e, strong)
        ]
]

-- Outside development, test and demonstration the sessions are signed with the configured secret, of at
-- least 32 bytes and no placeholder, or not at all, and the process makes up no secret of its own.
pub jwt_secret-configured :
    (env : Environ) (utf8 : String → Bytes) (made : String) (fallback : Option String)
    (secret : String)
    → is_dev_mode env ≡ false
    → is_test_mode env ≡ false
    → is_demo_mode env ≡ false
    → (jwt_secret env utf8 made fallback).1 ≡ ok secret
    → (env "SESSION_SECRET_KEY" ≡ some secret)
      × (is_insecure_placeholder secret ≡ false)
      × (32 ≤ length (utf8 secret))
      × ((jwt_secret env utf8 made fallback).0 ≡ fallback)
unfolding jwt_secret is_development_or_test
jwt_secret-configured env utf8 made fallback secret dev test demo h =
    elim (Option-cases (configured_secret env)) [
      | inl unset ↦ absurd (cc (rw (jwt_secret, unset, dev, test, demo) at h))
      | inr (found, e) ↦
          let answer = rw (jwt_secret, e) at h in
          let long : ltb (length (utf8 found)) 32 ≡ false = ground (arith, answer, dev, test) in
          let same : found ≡ secret = ground (arith, answer, long) in
          let (set, strong) = configured_secret-given env found e in
          (
            rw (← same) set,
            rw (← same) strong,
            rw (← same) (ground (arith, long)),
            rw (jwt_secret, e) (ground (arith, long)),
          )
    ]

-- That a call on a response deletes the cookie of a name.
abbrev pub deletes : String → CookieCall → Bool
deletes name call = elim call.value [ none ↦ call.name == name | some value ↦ false ]

-- The cookie that a session is kept in under one environment is deleted under any other.
pub clear_auth_cookies-session :
    (env env' : Environ) (csrf_name : String) (r r' : Response)
    → clear_auth_cookies env' csrf_name r ≡ ok r'
    → (any (deletes (session_cookie_name env)) r'.cookies ≡ true)
      × (any (deletes csrf_name) r'.cookies ≡ true)
unfolding clear_auth_cookies session_cookie_name delete_call
clear_auth_cookies-session env env' csrf_name r r' h =
    let (samesite, e, h') = >>=-eq-ok (session_samesite env') _ h in
    let calls =
      map (delete_call env' true samesite)
        (session_cookie_name_base ∷ ("__Host-" <> session_cookie_name_base) ∷ [])
      ++ delete_call env' false samesite csrf_name ∷ [] in
    let same : r.cookies ++ calls ≡ r'.cookies = ground (arith, h') in
    let session = any-append (deletes (session_cookie_name env)) r.cookies calls in
    let csrf = any-append (deletes csrf_name) r.cookies calls in
    (
      rw (← same) (
          rw session (elim (Bool-cases (cookie_secure env)) [
            | inl secure ↦ rw (session_cookie_name, secure) (ground arith)
            | inr plain ↦ rw (session_cookie_name, plain) (ground arith)
          ])),
      rw (← same) (rw csrf (ground (arith, eq_refl csrf_name))),
    )

-- A cookie that other sites may send is a secure one.
abbrev pub Guarded : CookieCall → Type 0
Guarded call = call.samesite ≡ cross_site → call.secure ≡ true

session_samesite-Guarded :
    (env : Environ) (samesite : SameSite)
    → session_samesite env ≡ ok samesite
    → samesite ≡ cross_site
    → cookie_secure env ≡ true
unfolding session_samesite checked_same_site
session_samesite-Guarded env samesite h cross =
    checked-secure (same_site_of (env "SESSION_COOKIE_SAMESITE")) samesite h cross
  where
    checked-secure :
        (s samesite : SameSite)
        → checked_same_site (cookie_secure env) s ≡ ok samesite
        → samesite ≡ cross_site
        → cookie_secure env ≡ true
    checked-secure cross_site samesite h cross = ground (arith, h)
    checked-secure lax samesite h cross = cc
    checked-secure strict samesite h cross = cc
