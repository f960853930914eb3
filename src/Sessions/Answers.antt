-- ===== src/Sessions/Answers.antt =====
-- What `get_session` and `is_revoked` answer, and on whose word.
use otl_voice.Prelude.{
  ℕ, ◌≡◌, ◌⊎◌, inl, inr, true, false, Option, none, some, String, arith, eq_refl, string_eq,
  Option-cases, ap, ◌∙◌,
}
use otl_voice.Prelude.Result.{ok}
use otl_voice.Config.{memory_fallback_allowed}
use otl_voice.Sessions.Session.{StoredSession, expired, from_json}
use otl_voice.Sessions.Connection.{
  Blocklist, Call, mark_redis_failure, ensure_redis, ensure_redis-local,
}
use otl_voice.Sessions.Store.{
  Fetched, fails, says, says_revoked, says_absent, Asked, answers, Claims, clean_local,
  store_session, get_session, revoke_session, is_revoked, fetched, get_locally, asked,
  revoked_locally, store_locally,
}

get_locally-live :
    (c : Call) (key : String) (s : Blocklist) (session : StoredSession)
    → (get_locally c key s).1 ≡ ok (some session)
    → (expired c.wall session ≡ false) × (memory_fallback_allowed c.env ≡ true)
unfolding get_locally
get_locally-live c key s session h = (ground arith, ground arith)

-- The session that Redis holds, if it says so.
abbrev pub Held : Fetched → StoredSession → Type 0
Held fails session = ⊥
Held says_revoked session = ⊥
Held says_absent session = ⊥
Held (says value) session = from_json value ≡ some session

fetched-live :
    (c : Call) (key : String) (fetch : Fetched) (s : Blocklist) (session : StoredSession)
    → (fetched c key fetch s).1 ≡ ok (some session)
    → (expired c.wall session ≡ false)
      × (Held fetch session ⊎ (memory_fallback_allowed c.env ≡ true))
unfolding fetched
fetched-live c key fails s session h =
    let (live, allowed) = get_locally-live c key (mark_redis_failure c.failed_at s) session h in
    (live, inr allowed)
fetched-live c key says_revoked s session h = cc
fetched-live c key says_absent s session h = cc
fetched-live c key (says value) s session h = elim (Option-cases (from_json value)) [
  | inl broken ↦
      let (live, allowed) =
        get_locally-live c key (mark_redis_failure c.failed_at s) session
          (ground (arith, h, broken)) in
      (live, inr allowed)
  | inr (found, e) ↦ (ground (arith, h, e), inl (ground (arith, h, e)))
]

-- A session that `get_session` gives has not expired, and either Redis holds it, unrevoked, or the
-- fallback to memory is allowed.
pub get_session-live :
    (c : Call) (key : String) (fetch : Fetched) (s : Blocklist) (session : StoredSession)
    → (get_session c fetch key s).1 ≡ ok (some session)
    → (expired c.wall session ≡ false)
      × (Held fetch session ⊎ (memory_fallback_allowed c.env ≡ true))
unfolding get_session
get_session-live c key fetch s session h =
    let s' = (ensure_redis c (clean_local c.denial_wall s)).0 in
    ground (arith, h, fetched-live c key fetch s' session, get_locally-live c key s' session)

-- A token passes as unrevoked only on the word of Redis, or where the fallback to memory is allowed.
pub is_revoked-fails_closed :
    (c : Call) (ask : Asked) (claims : Option Claims) (s : Blocklist)
    → (is_revoked c ask claims s).1 ≡ ok false
    → (ask ≡ answers false) ⊎ (memory_fallback_allowed c.env ≡ true)
unfolding is_revoked asked revoked_locally
is_revoked-fails_closed c ask claims s h = ground arith

-- What a call that does not reach Redis finds in memory.
get_session_kept :
    (c : Call) (key : String) (fetch : Fetched) (s : Blocklist) (session : StoredSession)
    → memory_fallback_allowed c.env ≡ true
    → expired c.denial_wall session ≡ false
    → expired c.wall session ≡ false
    → (ensure_redis c (clean_local c.denial_wall s)).1 ≡ false
    → s.local_sessions key ≡ some session
    → s.local_revoked key ≡ none
    → (get_session c fetch key s).1 ≡ ok (some session)
unfolding get_session get_locally
get_session_kept c key fetch s session allowed early live down held free =
    let checked = clean_local c.denial_wall s in
    let held' = ap (λ m. m key) (ensure_redis-local c checked).0 in
    let free' = ap (λ m. m key) (ensure_redis-local c checked).1 in ground (arith, held', free')

-- A session that was stored in memory while Redis was away is given again, although it was revoked
-- in the meantime, if Redis took the revocation and is away again: `revoke_session` leaves what is in
-- memory alone when Redis takes the revocation.
pub revoked_in_redis_returns :
    (c c' : Call) (key : String) (ttl : ℕ) (fetch : Fetched) (s : Blocklist)
    (session : StoredSession)
    → s.local_sessions key ≡ some session
    → s.local_revoked key ≡ none
    → expired c'.denial_wall session ≡ false
    → expired c'.wall session ≡ false
    → (ensure_redis c s).1 ≡ true
    → (ensure_redis c' (clean_local c'.denial_wall (ensure_redis c s).0)).1 ≡ false
    → memory_fallback_allowed c'.env ≡ true
    → let (s', answer) = revoke_session c true key ttl s in
      (answer ≡ ok tt) × ((get_session c' fetch key s').1 ≡ ok (some session))
unfolding revoke_session
revoked_in_redis_returns c c' key ttl fetch s session kept unrevoked early live up down allowed =
    let s1 = (ensure_redis c s).0 in
    let held = ap (λ m. m key) (ensure_redis-local c s).0 ∙ kept in
    let free = ap (λ m. m key) (ensure_redis-local c s).1 ∙ unrevoked in
    (
      ground arith,
      ground (arith, get_session_kept c' key fetch s1 session allowed early live down held free),
    )

stored_locally :
    (c : Call) (key : String) (s : Blocklist) (session : StoredSession)
    → memory_fallback_allowed c.env ≡ true
    → let s' = (store_session c false key session s).0 in
      (s'.local_sessions key ≡ some session) × (s'.local_revoked key ≡ none)
unfolding store_session store_locally
stored_locally c key s session allowed = (ground (arith, eq_refl key), ground (arith, eq_refl key))

-- A session stored in memory is found again by a later call that does not reach Redis either, until
-- it expires.
pub stored_is_found :
    (c c' : Call) (key : String) (fetch : Fetched) (s : Blocklist) (session : StoredSession)
    → memory_fallback_allowed c.env ≡ true
    → memory_fallback_allowed c'.env ≡ true
    → expired c'.denial_wall session ≡ false
    → expired c'.wall session ≡ false
    → (ensure_redis c' (clean_local c'.denial_wall (store_session c false key session s).0)).1
      ≡ false
    → (get_session c' fetch key (store_session c false key session s).0).1 ≡ ok (some session)
stored_is_found c c' key fetch s session allowed allowed' early live down =
    let (held, free) = stored_locally c key s session allowed in
    get_session_kept c' key fetch (store_session c false key session s).0 session allowed' early
      live down held free
