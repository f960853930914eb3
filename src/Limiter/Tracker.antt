-- ===== src/Limiter/Tracker.antt =====
-- `WSConnectionTracker` and `_ws_connection_limit` of backend/core/limiter.py. `digest` is the
-- hexadecimal SHA-256 of a text; the identity of the task is what
-- `_authenticated_ws_identity.get()` gives.
use Prim.Native.String.{◌++◌}
use otl_voice.Prelude.{
  ℕ, suc, ◌-◌, ◌≤◌, ◌<◌, ◌≡◌, refl, Bool, true, false, not, ◌&&◌, Option, none, some, [], String,
  arith, ltb, leb, min, max, ◌==◌, string_eq, nat_eq, eq_iff, if◌then◌else◌,
}
use otl_voice.Prelude.Dict.{Dict, lookup, insert, erase, lookup-insert, lookup-erase}
use otl_voice.Prelude.Int.{pos, negsuc}
use otl_voice.Python.Text.{is_empty, strip}
use otl_voice.Python.Number.{parse_int}
use otl_voice.Config.{Environ}

-- `set_authenticated_ws_identity`: what the context variable holds afterwards.
unfoldable pub set_identity : String → Option String → Option String
set_identity employee_id identity =
    let normalized = strip employee_id in
    if is_empty normalized then identity else some ("employee:" ++ normalized)

-- `clear_authenticated_ws_identity`
abbrev pub clear_identity : Option String → Option String
clear_identity identity = none

-- The limit is at least one, or the constructor raises.
unfoldable pub ws_connection_limit : Environ → ℕ
ws_connection_limit env = elim (env "WS_MAX_CONNECTIONS_PER_USER") [
  | none ↦ 5
  | some raw ↦ elim (parse_int raw) [
    | none ↦ 5
    | some (pos n) ↦ max 1 (min 50 n)
    | some (negsuc n) ↦ 1
  ]
]

-- `self._connections[key]` of a `defaultdict(int)`
abbrev pub count_of : Option ℕ → ℕ
count_of none = 0
count_of (some n) = n

abbrev pub change : String → ℕ → (String → ℕ) → String → ℕ
change key n held j = if key == j then n else held j

abbrev pub opened : String → Bool → (String → ℕ) → String → ℕ
opened key granted held j = if granted && key == j then suc (held key) else held j

-- An entry of the table against the number of open connections.
abbrev pub Counts : ℕ → Option ℕ → ℕ → Type 0
Counts limit none n = n ≡ 0
Counts limit (some m) n = (m ≡ n) × (0 < n) × (n ≤ limit)

acquire_key : ℕ → String → Dict ℕ → Dict ℕ × Bool
acquire_key limit key connections =
    let n = count_of (lookup key connections) in
    if leb limit n
    then (insert key n connections, false)
    else (insert key (suc n) connections, true)

release_key : String → Dict ℕ → Dict ℕ
release_key key connections =
    let n = count_of (lookup key connections) in
    if ltb 0 n
    then (if n - 1 == 0 then erase key connections else insert key (n - 1) connections)
    else insert key n connections

abbrev identified : Option String → Option String
identified none = none
identified (some identity) = if is_empty identity then none else some identity

module _ (digest : String → String) where
  unfoldable pub rate_limit_key : String → String → String
  rate_limit_key namespace value = namespace ++ ":" ++ digest value

  unfoldable pub key_of : String → String
  unfolding rate_limit_key
  key_of who = rate_limit_key "websocket-user" who

  unfoldable pub acquire : ℕ → Option String → Dict ℕ → Dict ℕ × Bool
  unfolding acquire_key
  acquire limit identity connections = elim (identified identity) [
    | none ↦ (connections, false)
    | some who ↦ acquire_key limit (key_of who) connections
  ]

  unfoldable pub release : Option String → Dict ℕ → Dict ℕ
  unfolding release_key
  release identity connections = elim (identified identity) [
    | none ↦ connections
    | some who ↦ release_key (key_of who) connections
  ]

  module _ (limit : ℕ) where
    -- Runs of the tracker from its construction, with the number of open connections of each key: a
    -- connection is released only after it was acquired.
    pub data Connections : Dict ℕ → (String → ℕ) → Type 0 where
      begins : Connections [] (λ key. 0)
      opens :
          {connections : Dict ℕ} {held : String → ℕ} (who : String)
          → Connections connections held
          → Connections
              (acquire limit (some who) connections).0
              (opened (key_of who) (acquire limit (some who) connections).1 held)
      closes :
          {connections : Dict ℕ} {held : String → ℕ} (who : String)
          → Connections connections held
          → is_empty who ≡ false
          → 0 < held (key_of who)
          → Connections
              (release (some who) connections)
              (change (key_of who) (held (key_of who) - 1) held)

    acquire_key-Counts :
        (key j : String) (connections : Dict ℕ) (held : String → ℕ)
        → 0 < limit
        → Counts limit (lookup key connections) (held key)
        → Counts limit (lookup j connections) (held j)
        → Counts limit
            (lookup j (acquire_key limit key connections).0)
            (opened key (acquire_key limit key connections).1 held j)
    unfolding acquire_key
    acquire_key-Counts key j connections held positive h hj = ground (
      arith,
      eq_iff key j,
      lookup-insert key j (count_of (lookup key connections)) connections,
      lookup-insert key j (suc (count_of (lookup key connections))) connections,
    )

    release_key-Counts :
        (key j : String) (connections : Dict ℕ) (held : String → ℕ)
        → 0 < held key
        → Counts limit (lookup key connections) (held key)
        → Counts limit (lookup j connections) (held j)
        → Counts limit (lookup j (release_key key connections)) (change key (held key - 1) held j)
    unfolding release_key
    release_key-Counts key j connections held some_open h hj = ground (
      arith,
      eq_iff key j,
      lookup-erase key j connections,
      lookup-insert key j (count_of (lookup key connections) - 1) connections,
    )

    acquire-Counts :
        (who j : String) (connections : Dict ℕ) (held : String → ℕ)
        → 0 < limit
        → Counts limit (lookup (key_of who) connections) (held (key_of who))
        → Counts limit (lookup j connections) (held j)
        → Counts limit
            (lookup j (acquire limit (some who) connections).0)
            (opened (key_of who) (acquire limit (some who) connections).1 held j)
    unfolding acquire
    acquire-Counts who j connections held positive h hj =
        ground (arith, acquire_key-Counts (key_of who) j connections held positive h hj)

    release-Counts :
        (who j : String) (connections : Dict ℕ) (held : String → ℕ)
        → is_empty who ≡ false
        → 0 < held (key_of who)
        → Counts limit (lookup (key_of who) connections) (held (key_of who))
        → Counts limit (lookup j connections) (held j)
        → Counts limit
            (lookup j (release (some who) connections))
            (change (key_of who) (held (key_of who) - 1) held j)
    unfolding release
    release-Counts who j connections held named some_open h hj =
        ground (arith, release_key-Counts (key_of who) j connections held some_open h hj)

    -- The table has an entry for exactly the employees that hold connections, with their number,
    -- which never passes the limit.
    pub Connections-Counts :
        {connections : Dict ℕ} {held : String → ℕ}
        → 0 < limit
        → Connections connections held
        → (key : String) → Counts limit (lookup key connections) (held key)
    unfolding lookup
    Connections-Counts positive begins key = refl
    Connections-Counts positive (opens {connections = c} {held = n} who h) key =
        acquire-Counts who key c n positive (Connections-Counts positive h (key_of who))
          (Connections-Counts positive h key)
    Connections-Counts positive (closes {connections = c} {held = n} who h named some_open) key =
        release-Counts who key c n named some_open (Connections-Counts positive h (key_of who))
          (Connections-Counts positive h key)

    -- A connection is granted exactly to a named employee who holds fewer than the limit.
    pub acquire_iff :
        {connections : Dict ℕ} {held : String → ℕ} (who : String)
        → 0 < limit
        → Connections connections held
        → (acquire limit (some who) connections).1
          ≡ (not (is_empty who) && ltb (held (key_of who)) limit)
    unfolding acquire acquire_key
    acquire_iff who positive h = ground (arith, Connections-Counts positive h (key_of who))

-- Everything that a run computes with, for the tests.
unfoldable pub run_tracker : Unit {0}
unfolding acquire release key_of set_identity ws_connection_limit parse_int strip lookup insert
    erase
run_tracker = tt
