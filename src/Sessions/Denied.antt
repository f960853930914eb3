-- ===== src/Sessions/Denied.antt =====
-- A session that is revoked in memory stays revoked: what the other calls may do to it until then.
use otl_voice.Prelude.{
  ℕ, ◌+◌, ◌-◌, ◌*◌, ◌/◌, ◌⊎◌, ◌≤◌, ◌<◌, ◌≡◌, ◌≢◌, Bool, true, false, Option, none, some, List, [],
  ◌∷◌, String, arith, eq_iff, eq_refl, string_eq, max, All,
}
use otl_voice.Prelude.Result.{ok}
use otl_voice.Sessions.Session.{StoredSession}
use otl_voice.Sessions.Connection.{
  second, Blocklist, Call, mark_redis_failure, ensure_redis, ensure_redis-local,
}
use otl_voice.Sessions.Store.{
  Fetched, Asked, Claims, clean_local, deny_locally, store_session, get_session, revoke_session,
  add, is_revoked, close, store_locally, fetched, get_locally, asked, revoked_locally,
}

-- A revocation that lasts until `until` at least.
abbrev pub Lasts : ℕ → Option ℕ → Type 0
Lasts until none = ⊥
Lasts until (some expiry) = until ≤ expiry

abbrev pub Denied : String → ℕ → Blocklist → Type 0
Denied session_id until s = Lasts until (s.local_revoked session_id)

-- A call of any method but `clear_local`.
pub data Step : Type 0 where
  stores : Bool → String → StoredSession → Step
  gets : Fetched → String → Step
  revokes : Bool → String → ℕ → Step
  adds : Bool → Option Claims → Step
  asks : Asked → Option Claims → Step
  closes : Step

unfoldable pub step : Call × Step → Blocklist → Blocklist
step (c, stores sets key session) s = (store_session c sets key session s).0
step (c, gets reply key) s = (get_session c reply key s).0
step (c, revokes executes key ttl) s = (revoke_session c executes key ttl s).0
step (c, adds executes claims) s = (add c executes claims s).0
step (c, asks reply claims) s = (is_revoked c reply claims s).0
step (c, closes) s = close s

unfoldable pub run : List (Call × Step) → Blocklist → Blocklist
run [] s = s
run (call ∷ calls) s = run calls (step call s)

-- The call stores no session under `key`, and revokes it for no shorter time than until `until`.
abbrev Spares : String → ℕ → Call → Step → Type 0
Spares key until c (stores sets other session) = other ≢ key
Spares key until c (gets reply other) = Unit
Spares key until c (revokes executes other ttl) =
    (other ≢ key) ⊎ (until ≤ c.stamp_wall + max 1 ttl * second)
Spares key until c (adds executes none) = Unit
Spares key until c (adds executes (some claims)) =
    (claims.jti ≢ key)
    ⊎ (until ≤ c.stamp_wall + max 1 ((claims.exp - c.denial_wall) / second) * second)
Spares key until c (asks reply claims) = Unit
Spares key until c closes = Unit

abbrev pub Harmless : String → ℕ → Call × Step → Type 0
Harmless key until (c, s) = (c.wall < until) × (c.denial_wall < until) × Spares key until c s

cleaned :
    (now until : ℕ) (key : String) (s : Blocklist)
    → now < until
    → Denied key until s
    → Denied key until (clean_local now s)
cleaned now until key s early h = ground arith

connected :
    (c : Call) (key : String) (until : ℕ) (s : Blocklist)
    → Denied key until s
    → Denied key until (ensure_redis c s).0
connected c key until s h = rw ((ensure_redis-local c s).1) h

stays_denied :
    (c : Call) (key other : String) (ttl until : ℕ) (s : Blocklist)
    → c.wall < until
    → (other ≢ key) ⊎ (until ≤ c.stamp_wall + max 1 ttl * second)
    → Denied key until s
    → Denied key until (deny_locally c other ttl s)
unfolding deny_locally
stays_denied c key other ttl until s early long h = ground (arith, eq_iff other key)

deny_locally-Denied :
    (c : Call) (key : String) (ttl : ℕ) (s : Blocklist)
    → Denied key (c.stamp_wall + max 1 ttl * second) (deny_locally c key ttl s)
unfolding deny_locally
deny_locally-Denied c key ttl s = ground (arith, eq_refl key)

store-Denied :
    (c : Call) (sets : Bool) (key other : String) (session : StoredSession) (until : ℕ)
    (s : Blocklist)
    → c.wall < until
    → other ≢ key
    → Denied key until s
    → Denied key until (store_session c sets other session s).0
unfolding store_session store_locally
store-Denied c sets key other session until s early apart h =
    ground (arith, eq_iff other key, connected c key until s h)

fetched-Denied :
    (c : Call) (reply : Fetched) (key other : String) (until : ℕ) (s : Blocklist)
    → c.wall < until
    → Denied key until s
    → Denied key until (fetched c other reply s).0
unfolding fetched get_locally
fetched-Denied c reply key other until s early h = ground arith

get-Denied :
    (c : Call) (reply : Fetched) (key other : String) (until : ℕ) (s : Blocklist)
    → c.wall < until
    → c.denial_wall < until
    → Denied key until s
    → Denied key until (get_session c reply other s).0
unfolding get_session get_locally
get-Denied c reply key other until s early checked h =
    let s' = clean_local c.denial_wall s in
    let clean = cleaned c.denial_wall until key s checked h in
    ground (
      arith,
      clean,
      connected c key until s' clean,
      fetched-Denied c reply key other until (ensure_redis c s').0 early,
    )

ask-Denied :
    (c : Call) (reply : Asked) (key : String) (claims : Claims) (until : ℕ) (s : Blocklist)
    → c.wall < until
    → c.denial_wall < until
    → Denied key until s
    → Denied key until (is_revoked c reply (some claims) s).0
unfolding is_revoked asked revoked_locally
ask-Denied c reply key claims until s early checked h =
    let s' = clean_local c.denial_wall s in
    let clean = cleaned c.denial_wall until key s checked h in
    ground (arith, clean, connected c key until s' clean)

revoke-Denied :
    (c : Call) (executes : Bool) (key other : String) (ttl until : ℕ) (s : Blocklist)
    → c.wall < until
    → (other ≢ key) ⊎ (until ≤ c.stamp_wall + max 1 ttl * second)
    → Denied key until s
    → Denied key until (revoke_session c executes other ttl s).0
unfolding revoke_session
revoke-Denied c executes key other ttl until s early long h =
    let s' = (ensure_redis c s).0 in
    let failed = mark_redis_failure c.failed_at s' in
    let kept = connected c key until s h in
    let once = stays_denied c key other ttl until failed early long kept in
    ground (
      arith,
      kept,
      once,
      stays_denied c key other ttl until s' early long kept,
      stays_denied c key other ttl until (deny_locally c other ttl failed) early long once,
    )

max_twice : (n : ℕ) → max 1 (max 1 n) ≡ max 1 n
max_twice n = omega arith

step-Denied :
    (key : String) (until : ℕ) (call : Call × Step) (s : Blocklist)
    → Harmless key until call
    → Denied key until s
    → Denied key until (step call s)
unfolding step add is_revoked
step-Denied key until (c, stores sets other session) s (early, checked, apart) h =
    store-Denied c sets key other session until s early apart h
step-Denied key until (c, gets reply other) s (early, checked, apart) h =
    get-Denied c reply key other until s early checked h
step-Denied key until (c, revokes executes other ttl) s (early, checked, apart) h =
    revoke-Denied c executes key other ttl until s early apart h
step-Denied key until (c, adds executes none) s (early, checked, apart) h = h
step-Denied key until (c, adds executes (some claims)) s (early, checked, apart) h =
    revoke-Denied c executes key claims.jti (max 1 ((claims.exp - c.denial_wall) / second)) until s
      early (rw (max_twice ((claims.exp - c.denial_wall) / second)) apart) h
step-Denied key until (c, asks reply none) s (early, checked, apart) h = h
step-Denied key until (c, asks reply (some claims)) s (early, checked, apart) h =
    ask-Denied c reply key claims until s early checked h
step-Denied key until (c, closes) s (early, checked, apart) h = h

run-Denied :
    (key : String) (until : ℕ) (calls : List (Call × Step)) (s : Blocklist)
    → All (Harmless key until) calls
    → Denied key until s
    → Denied key until (run calls s)
unfolding run
run-Denied key until [] s none_left h = h
run-Denied key until (call ∷ calls) s (first, others) h =
    run-Denied key until calls (step call s) others (step-Denied key until call s first h)

revoke_session-Denied :
    (c : Call) (key : String) (ttl : ℕ) (s : Blocklist)
    → Denied key (c.stamp_wall + max 1 ttl * second) (revoke_session c false key ttl s).0
unfolding revoke_session
revoke_session-Denied c key ttl s =
    let s' = (ensure_redis c s).0 in
    let failed = mark_redis_failure c.failed_at s' in
    ground (
      arith,
      deny_locally-Denied c key ttl s',
      deny_locally-Denied c key ttl failed,
      deny_locally-Denied c key ttl (deny_locally c key ttl failed),
    )

get_session_denied :
    (c : Call) (fetch : Fetched) (key : String) (until : ℕ) (s : Blocklist)
    → c.denial_wall < until
    → Denied key until s
    → (get_session c fetch key s).1 ≡ ok none
unfolding get_session
get_session_denied c fetch key until s early h = ground arith

is_revoked_denied :
    (c : Call) (ask : Asked) (claims : Claims) (until : ℕ) (s : Blocklist)
    → c.denial_wall < until
    → Denied claims.jti until s
    → (is_revoked c ask (some claims) s).1 ≡ ok true
unfolding is_revoked
is_revoked_denied c ask claims until s early h = ground arith

-- A revocation that Redis does not take is kept in memory: after any further calls of the store's
-- methods but `clear_local`, which empties the memory, that come before its end and neither store the
-- session again nor revoke it for a shorter time, `get_session` before the end gives nothing and
-- `is_revoked` answers true, whatever Redis answers.
pub revoked_stays_revoked :
    (c : Call) (key : String) (ttl : ℕ) (s : Blocklist) (calls : List (Call × Step)) (c' : Call)
    (fetch : Fetched) (ask : Asked) (exp : ℕ)
    → let until = c.stamp_wall + max 1 ttl * second in
      All (Harmless key until) calls
      → c'.denial_wall < c.stamp_wall + max 1 ttl * second
      → let s' = run calls (revoke_session c false key ttl s).0 in
        ((get_session c' fetch key s').1 ≡ ok none)
        × ((is_revoked c' ask (some (record { jti = key; exp = exp })) s').1 ≡ ok true)
revoked_stays_revoked c key ttl s calls c' fetch ask exp harmless early =
    let until = c.stamp_wall + max 1 ttl * second in
    let s' = run calls (revoke_session c false key ttl s).0 in
    let denied =
      run-Denied key until calls (revoke_session c false key ttl s).0 harmless
        (revoke_session-Denied c key ttl s) in
    (
      get_session_denied c' fetch key until s' early denied,
      is_revoked_denied c' ask (record { jti = key; exp = exp }) until s' early denied,
    )
