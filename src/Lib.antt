-- ===== src/Lib.antt =====
-- A model of the server side of OTL-Voice, which takes timecards from employees by voice or text and
-- submits them to Oracle Fusion.
--
-- The parts and how they interact. A request comes in with an address and a session. The limiter
-- (backend/core/limiter.py) finds out the address behind the proxies and counts the requests; the
-- session store (backend/core/token_blocklist.py) says whose session it is and whether it is revoked.
-- Both keep their state in Redis and, only where backend/core/config.py allows it, in memory. The
-- entries of a timecard are checked and completed from the assignments of the employee
-- (backend/services/timecard_entries.py). The Oracle client (backend/services/otl_client.py) sends
-- each entry under a request key, and the idempotency store (backend/services/idempotency.py) sees to
-- it that a key is submitted once: a caller claims the key, submits, and completes the claim with the
-- sanitised result, which later callers get instead of a second submission.
--
-- The files.
-- - Prelude: tests, lists, dictionaries, integers and results. Python: texts, numbers, JSON values.
-- - Config: the flags of config.py, over an environment that is a function from names to texts.
-- - Limiter: ClientIp (_parse_ip, resolve_client_ip), Local (_is_allowed_locally), Limits (the rest of
--   RateLimiter), Tracker (WSConnectionTracker); Spoofing and Window hold proofs.
-- - Sessions: Session (StoredSession), Connection (_get_redis, _ensure_redis), Store (the methods of
--   _TokenBlocklist); Denied and Answers hold proofs.
-- - Entries: Entry (_normalize_entry), Hours (_entry_hours), Times (_parse_date, _validate_times),
--   Assigned (_assigned_project), Validate (_validate_timecard_entry and _validate_timecard_entries),
--   Resolve (_resolve_entry), Extract (_extract_entries, _options_hint); Accepted holds proofs.
-- - Idempotency: Key (validate_idempotency_key, idempotency_key_for_entry, scoped_idempotency_key),
--   Sanitize (the results that are kept), Record (records and rows), Memory (_MemoryBackend), Sqlite
--   (_SQLiteBackend), Store (IdempotencyStore over any backend), Waiting (wait_for_result), Fingerprint
--   (request_fingerprint); Exclusive,
--   Lifecycle and Agreement hold proofs about whole runs, as do the children of Key and Sanitize.
-- - Otl: Credential (service_credential), Retry (_request_with_retry and _arequest_with_retry), Mapping (map_entry_to_otl), Preflight
--   (_preflight_entries), Results (public_otl_error and the results for failures), Create
--   (create_timecard_entry and the result of a success), Submit (create_many, row by row), Query
--   (escape_q_literal and the filters), Statuses (propagate_timecard_statuses); the children of Mapping,
--   Submit and Statuses hold proofs.
-- - Auth: Password (the scrypt credentials), Users (AUTH_USERS and the verifiers of passwords), Oidc
--   (the cache of keys), Oidc.Endpoint (_jwks_url), Oidc.Verify (OidcTokenVerifier.verify), Verifier
--   (_credential_verifier), Settings (the secret and the cookies), Session (the tokens); their other
--   children hold proofs.
-- - Api: RequestIds and Submit (submit_timecard of backend/api/v1/timecards.py); the children of Submit
--   hold proofs.
-- - A Tests or Trials module below a part holds its runs at concrete inputs.
--
-- State and time. A method is a function from the state to the state and what it returns; what raises
-- returns an error. The locks and transactions of the code make each method one step, and runs are
-- lists of steps. Readings of clocks are natural numbers of microseconds that are arguments of a
-- step, as are tokens; the in-memory limiter and the waiting loop say where their clock may not go
-- back. Delays of retries are in milliseconds, back-offs in seconds.
--
-- What is a parameter: SHA-256, str of a float or a container, Decimal, casefold, the addresses and
-- networks of ipaddress, urlsplit, base64, UTF-8, scrypt, json.loads, jwt.encode, what Redis, Oracle,
-- the identity provider and jwt.decode answer, the reader of the quoted texts in a filter, and where
-- SQLite fails. Decimals
-- are exact, without the rounding of Python's float and decimal contexts. Messages of errors are
-- constructors.
--
-- Fuel. The waiting loop has wait / poll + 2 rounds, which is enough when the clock keeps up with the
-- sleeps; the printing of a number n has n + 1 digits; the bits of scrypt's n are 21, since n is at
-- most 2^20. All other loops are structural.
--
-- What is not modelled: the HTTP layer (backend/main.py and backend/api) but submit_timecard, for which
-- the look-up of assignments and acreate_many are parameters; the tasks of acreate_many as they
-- overlap, and the listings and look-ups of otl_client.py but for their filters; the catalogue, the
-- language model and speech clients, which mostly call services; get_idempotency_store and
-- cleanup_expired of idempotency.py; Oracle's copied speech library, and the frontend, which is not
-- Python.
pub mod Prelude
pub mod Python
pub mod Config
pub mod Limiter
pub mod Sessions
pub mod Idempotency
pub mod Entries
pub mod Otl
pub mod Auth
pub mod Api
