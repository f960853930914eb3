-- ===== src/Idempotency/Store.antt =====
-- `IdempotencyStore` of backend/services/idempotency.py over a backend, which is a parameter: the
-- two backends are its values. Intervals are in microseconds.
use otl_voice.Prelude.{
  ℕ, ◌≤◌, ◌<◌, min, max, Bool, true, ◌≡◌, ◌≢◌, Option, String, arith, if◌then◌else◌,
}
use otl_voice.Prelude.Dict.{Dict}
use otl_voice.Prelude.Int.{ℤ, pos, negsuc}
use otl_voice.Prelude.Map.{Map}
use otl_voice.Prelude.Result.{Result, ok, err}
use otl_voice.Python.Value.{Value}
use otl_voice.Idempotency.Key.{claim_accepts}
use otl_voice.Idempotency.Record.{Record, Row, Claim}
use otl_voice.Idempotency.Memory
use otl_voice.Idempotency.Sqlite
use otl_voice.Idempotency.Sqlite.{Unavailable, Fault}

-- What the store asks of a backend: `key hash token ttl lease now`, `key token result now` and
-- `key now`, under what the environment does to the call.
pub record Backend : Type 1 where
  pub Table : Type 0
  pub claim :
      Fault → String → String → String → ℕ → ℕ → ℕ → Table → Table × Result Unavailable Claim
  pub complete : Fault → String → String → Dict Value → ℕ → Table → Table × Result Unavailable Bool
  pub read : Fault → String → ℕ → Table → Table × Result Unavailable (Option (Dict Value))

abbrev raised_nothing : {S A : Type 0} → S × A → S × Result Unavailable A
raised_nothing (s, a) = (s, ok a)

module _ (repr : Value → String) where
  abbrev pub sqlite_backend : Backend
  sqlite_backend = record {
    Table = Map Row;
    claim = Sqlite.claim repr;
    complete = Sqlite.complete repr;
    read = Sqlite.read repr;
  }

  -- A process-local dictionary does not fail.
  abbrev pub memory_backend : Backend
  memory_backend = record {
    Table = Map Record;
    claim = λ fault key hash token ttl lease now s.
        raised_nothing (Memory.claim key hash token ttl lease now s);
    complete = λ fault key token result now s.
        raised_nothing (Memory.complete repr key token result now s);
    read = λ fault key now s. raised_nothing (Memory.read repr key now s);
  }

pub record Settings : Type 0 where
  pub ttl : ℕ
  pub lease : ℕ
  pub wait : ℕ
  pub poll : ℕ

-- `max(k, float(x))`
abbrev at_least : ℕ → ℤ → ℕ
at_least k (pos n) = max k n
at_least k (negsuc n) = k

-- `MIN_INTERVAL_SECONDS`
abbrev pub min_interval : ℕ
min_interval = 10_000

-- `IdempotencyStore.__init__`
unfoldable pub init : ℤ → ℤ → ℤ → ℤ → Settings
init ttl lease wait poll =
    let ttl_seconds = at_least min_interval ttl in
    record {
      ttl = ttl_seconds;
      lease = min (at_least min_interval lease) ttl_seconds;
      wait = at_least 0 wait;
      poll = at_least 1_000 poll;
    }

-- Whatever the settings, the lease is positive and ends no later than the record, and the waiting
-- loop pauses.
pub init_bounds :
    (ttl lease wait poll : ℤ)
    → let s = init ttl lease wait poll in (0 < s.lease) × (s.lease ≤ s.ttl) × (0 < s.poll)
unfolding init
init_bounds ttl lease wait poll = ground arith

pub data StoreError : Type 0 where
  invalid_key : StoreError
  store_unavailable : StoreError

module _ (b : Backend) where
  open b use {Table, claim, complete, read}

  lifted : {A : Type 0} → Table × Result Unavailable A → Table × Result StoreError A
  lifted (t, ok a) = (t, ok a)
  lifted (t, err e) = (t, err store_unavailable)

  -- `IdempotencyStore.claim`
  unfoldable pub store_claim :
      Settings → Fault → String → String → String → ℕ → Table → Table × Result StoreError Claim
  unfolding lifted
  store_claim s fault key hash token now t =
      if claim_accepts key
      then lifted (claim fault key hash token s.ttl s.lease now t)
      else (t, err invalid_key)

  lifted-valid :
      {A : Type 0} (answer : Table × Result Unavailable A) → (lifted answer).1 ≢ err invalid_key
  unfolding lifted
  lifted-valid (t, ok a) h = cc
  lifted-valid (t, err e) h = cc

  -- The store raises no `ValueError` on a key in the form it asks for.
  pub store_claim-valid :
      (s : Settings) (fault : Fault) (key hash token : String) (now : ℕ) (t : Table)
      → claim_accepts key ≡ true
      → (store_claim s fault key hash token now t).1 ≢ err invalid_key
  unfolding store_claim
  store_claim-valid s fault key hash token now t accepted h =
      lifted-valid (claim fault key hash token s.ttl s.lease now t) (rw accepted at h)
