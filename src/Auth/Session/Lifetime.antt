-- ===== src/Auth/Session/Lifetime.antt =====
-- A session token from its issue to its end: what it resolves to, and that it resolves to nothing
-- once it is destroyed.
use otl_voice.Prelude.{
  ℕ, ◌+◌, ◌*◌, ◌<◌, ◌≡◌, refl, true, false, ◌⊎◌, Option, none, some, List, String, arith, All, max,
  string_eq, eq_iff, Option-cases, inl, inr,
}
use otl_voice.Prelude.Result.{Result, ok, err}
use otl_voice.Python.Text.{is_empty}
use otl_voice.Config.{memory_fallback_allowed}
use otl_voice.Sessions.Session.{StoredSession, expired}
use otl_voice.Sessions.Connection.{second, Blocklist, Call}
use otl_voice.Sessions.Store.{
  SessionStoreUnavailable, Fetched, answers, get_session, revoke_session,
}
use otl_voice.Sessions.Denied.{Step, Harmless, run, revoked_stays_revoked}
use otl_voice.Sessions.Answers.{Held, get_session-live}
use otl_voice.Auth.Session.{
  SessionContext, Payload, Jwt, decode_session_token, remaining, resolve, resolve_token, destroy,
  matched, context_of,
}

matched-some :
    (now : ℕ) (payload : Payload)
    (answer : Blocklist × Result SessionStoreUnavailable (Option StoredSession))
    (context : SessionContext)
    → (matched now payload answer).1 ≡ ok (some context)
    → (stored : StoredSession) × (answer.1 ≡ ok (some stored))
      × (expired now stored ≡ false)
      × (stored.employee_id ≡ payload.sub)
      × (stored.username ≡ payload.username)
      × (context.employee_id ≡ payload.sub)
      × (context.username ≡ payload.username)
      × (context.full_name ≡ stored.full_name)
      × (context.session_id ≡ payload.jti)
unfolding matched context_of
matched-some now payload (s, err e) context h = cc
matched-some now payload (s, ok none) context h = cc
matched-some now payload (s, ok (some stored)) context h = (
  stored,
  refl,
  ground (arith, h),
  ground (arith, h, eq_iff stored.employee_id payload.sub),
  ground (arith, h, eq_iff stored.username payload.username),
  ground (arith, h, eq_iff stored.employee_id payload.sub),
  ground (arith, h, eq_iff stored.username payload.username),
  ground (arith, h),
  ground (arith, h),
)

matched-none :
    (now : ℕ) (payload : Payload)
    (answer : Blocklist × Result SessionStoreUnavailable (Option StoredSession))
    → answer.1 ≡ ok none
    → (matched now payload answer).1 ≡ ok none
unfolding matched
matched-none now payload (s, err e) h = cc
matched-none now payload (s, ok none) h = refl
matched-none now payload (s, ok (some stored)) h = cc

module _ (jwt : Jwt) (secret : String) where
  resolve_token-none :
      (c : Call) (fetch : Fetched) (now checked_at : ℕ) (token : String) (s : Blocklist)
      → ((payload : Payload)
          → decode_session_token jwt secret now token ≡ some payload
          → (get_session c fetch payload.jti s).1 ≡ ok none)
      → (resolve_token jwt secret c fetch now checked_at token s).1 ≡ ok none
  unfolding resolve_token
  resolve_token-none c fetch now checked_at token s gone =
      elim (Option-cases (decode_session_token jwt secret now token)) [
        | inl refused ↦ rw (resolve_token, refused) refl
        | inr (payload, decoded) ↦
            rw (resolve_token, decoded)
              (matched-none checked_at payload (get_session c fetch payload.jti s)
                (gone payload decoded))
      ]

  resolve_token-some :
      (c : Call) (fetch : Fetched) (now checked_at : ℕ) (token : String) (s : Blocklist)
      (context : SessionContext)
      → (resolve_token jwt secret c fetch now checked_at token s).1 ≡ ok (some context)
      → (payload : Payload) × (decode_session_token jwt secret now token ≡ some payload)
        × ((matched checked_at payload (get_session c fetch payload.jti s)).1 ≡ ok (some context))
  unfolding resolve_token
  resolve_token-some c fetch now checked_at token s context h =
      elim (Option-cases (decode_session_token jwt secret now token)) [
        | inl refused ↦ absurd (cc (rw (resolve_token, refused) at h))
        | inr (payload, decoded) ↦ (payload, decoded, rw (resolve_token, decoded) at h)
      ]

  -- A token resolves to a context only if it decodes and `get_session` answers for its `jti` with a
  -- session that has not expired, which Redis holds or which is from memory where the fallback is
  -- allowed. The number and the user name of the context are those of the token and of the session,
  -- its full name is that of the session, and its id is the `jti`.
  pub resolve_sound :
      (c : Call) (fetch : Fetched) (now checked_at : ℕ) (token : String) (s : Blocklist)
      (context : SessionContext)
      → (resolve jwt secret c fetch now checked_at (some token) s).1 ≡ ok (some context)
      → (payload : Payload) × (stored : StoredSession) × (decode_session_token jwt secret now token
          ≡ some payload)
        × ((get_session c fetch payload.jti s).1 ≡ ok (some stored))
        × (context.employee_id ≡ payload.sub)
        × (context.username ≡ payload.username)
        × (stored.employee_id ≡ payload.sub)
        × (stored.username ≡ payload.username)
        × (context.full_name ≡ stored.full_name)
        × (context.session_id ≡ payload.jti)
        × (expired checked_at stored ≡ false)
        × (Held fetch stored ⊎ (memory_fallback_allowed c.env ≡ true))
  unfolding resolve
  resolve_sound c fetch now checked_at token s context h =
      let (payload, decoded, gave) =
        resolve_token-some c fetch now checked_at token s context (ground (arith, h)) in
      let (stored, found, live, same_id, same_name, id, name, full, session) =
        matched-some checked_at payload (get_session c fetch payload.jti s) context gave in
      let (unexpired, word) = get_session-live c payload.jti fetch s stored found in
      (payload, stored, decoded, found, id, name, same_id, same_name, full, session, live, word)

  destroy-revokes :
      (c : Call) (now left_at : ℕ) (token : String) (payload : Payload) (s : Blocklist)
      → is_empty token ≡ false
      → decode_session_token jwt secret now token ≡ some payload
      → destroy jwt secret c false now left_at (some token) s
        ≡ revoke_session c false payload.jti (remaining left_at payload.exp) s
  unfolding destroy
  destroy-revokes c now left_at token payload s given decoded = rw given (rw decoded refl)

  -- A token that is destroyed while Redis does not take the revocation resolves to nothing, whatever
  -- Redis answers, until the revocation ends, after any further calls of the store's methods but
  -- `clear_local` that come before its end and neither store the session again nor revoke it for a
  -- shorter time. The token's `jti` is the same whenever it is decoded.
  pub destroyed_token_is_refused :
      (c c' : Call) (fetch : Fetched) (now left_at now' checked_at : ℕ) (token : String)
      (payload : Payload) (s : Blocklist) (calls : List (Call × Step))
      → is_empty token ≡ false
      → decode_session_token jwt secret now token ≡ some payload
      → ((payload' : Payload)
          → decode_session_token jwt secret now' token ≡ some payload'
          → payload'.jti ≡ payload.jti)
      → All
          (Harmless payload.jti (c.stamp_wall + max 1 (remaining left_at payload.exp) * second))
          calls
      → c'.denial_wall < c.stamp_wall + max 1 (remaining left_at payload.exp) * second
      → let s' = run calls (destroy jwt secret c false now left_at (some token) s).0 in
        (resolve jwt secret c' fetch now' checked_at (some token) s').1 ≡ ok none
  unfolding resolve
  destroyed_token_is_refused c c' fetch now left_at now' checked_at token payload s calls given
        decoded same harmless early =
      let revoked = revoke_session c false payload.jti (remaining left_at payload.exp) s in
      let destroyed = destroy-revokes c now left_at token payload s given decoded in
      let (gone, told) =
        revoked_stays_revoked c payload.jti (remaining left_at payload.exp) s calls c' fetch
          (answers true) 0 harmless early in
      let refused =
        resolve_token-none c' fetch now' checked_at token (run calls revoked.0)
          (λ payload' decoded'. rw (same payload' decoded') gone) in
      rw destroyed (ground (arith, refused))
