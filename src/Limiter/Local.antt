-- ===== src/Limiter/Local.antt =====
-- `RateLimiter._is_allowed_locally` of backend/core/limiter.py. Times and the window are in
-- microseconds; `now - timestamp < window` is written without a difference.
use otl_voice.Prelude.{
  ℕ, ◌+◌, ◌-◌, Bool, true, false, not, Option, none, some, List, [], ◌∷◌, ◌++◌, String, ltb, leb,
  length, take, keep_if, if◌then◌else◌,
}
use otl_voice.Prelude.Dict.{Dict, lookup, insert, erase}

abbrev pub max_local_keys : ℕ
max_local_keys = 10000

abbrev pub is_active : ℕ → ℕ → ℕ → Bool
is_active window now timestamp = ltb now (timestamp + window)

-- `d[key]` of a `defaultdict(list)`
unfoldable pub stamps_of : Option (List ℕ) → List ℕ
stamps_of none = []
stamps_of (some stamps) = stamps

unfoldable pub touch : String → Dict (List ℕ) → Dict (List ℕ)
unfolding stamps_of
touch key requests = insert key (stamps_of (lookup key requests)) requests

-- `timestamps[-1]` was too long ago, or there is none.
last_expired : ℕ → ℕ → List ℕ → Bool
last_expired window now [] = true
last_expired window now (stamp ∷ []) = not (is_active window now stamp)
last_expired window now (stamp ∷ next ∷ stamps) = last_expired window now (next ∷ stamps)

-- `item[1][0] if item[1] else now`
oldest_stamp : ℕ → String × List ℕ → ℕ
oldest_stamp now (key, []) = now
oldest_stamp now (key, stamp ∷ stamps) = stamp

-- `sorted(..., key=...)`, which keeps the order of equal keys.
insert_sorted : ℕ → String × List ℕ → Dict (List ℕ) → Dict (List ℕ)
unfolding oldest_stamp
insert_sorted now item [] = item ∷ []
insert_sorted now item (other ∷ items) =
    let rest = insert_sorted now item items in
    if leb (oldest_stamp now item) (oldest_stamp now other)
    then item ∷ other ∷ items
    else other ∷ rest

unfoldable pub sorted : ℕ → Dict (List ℕ) → Dict (List ℕ)
unfolding insert_sorted
sorted now [] = []
sorted now (item ∷ items) = insert_sorted now item (sorted now items)

erase_all : Dict (List ℕ) → Dict (List ℕ) → Dict (List ℕ)
erase_all [] requests = requests
erase_all ((key, stamps) ∷ items) requests = erase_all items (erase key requests)

unfoldable pub evict : ℕ → ℕ → Dict (List ℕ) → Dict (List ℕ)
unfolding last_expired erase_all
evict window now requests =
    let live = keep_if (λ item. not (last_expired window now item.1)) requests in
    erase_all (take (length live - max_local_keys) (sorted now live)) live

module _ (max_requests window : ℕ) where
  record_request : String → ℕ → List ℕ → Dict (List ℕ) → Dict (List ℕ) × Bool
  record_request key now active requests =
      if leb max_requests (length active)
      then (insert key active requests, false)
      else (insert key (active ++ (now ∷ [])) requests, true)

  unfoldable pub is_allowed_locally : String → ℕ → Dict (List ℕ) → Dict (List ℕ) × Bool
  unfolding record_request
  is_allowed_locally key now requests =
      let active = keep_if (is_active window now) (stamps_of (lookup key requests)) in
      let touched = touch key requests in
      let kept =
        if ltb max_local_keys (length touched) then evict window now touched else touched in
      record_request key now active kept

-- Everything that a run computes with, for the tests.
unfoldable pub run_local : Unit {0}
unfolding is_allowed_locally touch stamps_of sorted evict lookup insert erase
run_local = tt
