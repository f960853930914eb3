-- ===== src/Limiter/Window.antt =====
-- The sliding window of the in-memory limiter: how many requests a key is granted in any window.
use otl_voice.Prelude.{
  ℕ, suc, ◌+◌, ◌≤◌, ◌≡◌, refl, Bool, true, false, not, ◌&&◌, List, [], ◌∷◌, ◌++◌, String, arith,
  ltb, leb, length, keep_if, if◌then◌else◌, ◌==◌, string_eq, eq_iff, Bool-cases, inl, inr,
}
use otl_voice.Prelude.Dict.{Dict, lookup, lookup-insert}
use otl_voice.Limiter.Local.{max_local_keys, is_active, stamps_of, touch, is_allowed_locally}

abbrev pub in_window : ℕ → ℕ → ℕ → Bool
in_window window start stamp = leb start stamp && ltb stamp (start + window)

still_active :
    (window now later : ℕ) (stamps : List ℕ)
    → now ≤ later
    → length (keep_if (is_active window later) (keep_if (is_active window now) stamps))
      ≡ length (keep_if (is_active window later) stamps)
still_active window now later [] h = refl
still_active window now later (s ∷ stamps) h =
    ground (arith, still_active window now later stamps h)

count_last :
    (p : ℕ → Bool) (stamps : List ℕ) (s : ℕ)
    → length (keep_if p (stamps ++ (s ∷ []))) ≡ length (keep_if p stamps) + (if p s then 1 else 0)
count_last p [] s = ground arith
count_last p (x ∷ stamps) s = ground (arith, count_last p stamps s)

-- In a window that reaches past `now`, every stamp is active.
window_active :
    (window start now : ℕ) (stamps : List ℕ)
    → ltb now (start + window) ≡ true
    → length (keep_if (in_window window start) stamps)
      ≤ length (keep_if (is_active window now) stamps)
window_active window start now [] h = omega arith
window_active window start now (s ∷ stamps) h =
    ground (arith, window_active window start now stamps h)

-- The times at which each key's requests were granted, after one more call.
abbrev pub note_grant : String → ℕ → Bool → (String → List ℕ) → String → List ℕ
note_grant key now allowed grants j =
    if allowed && key == j then grants j ++ (now ∷ []) else grants j

and_false : (b : Bool) → (b && false) ≡ false
and_false b = ground arith

and_true : (b : Bool) → (b && true) ≡ b
and_true b = ground arith

module _ (max_requests window : ℕ) where
  -- What is stored for a key, against the times at which its requests were granted.
  pub record Tracks (last : ℕ) (stamps granted : List ℕ) : Type 0 where
    pub kept :
        (later : ℕ)
        → last ≤ later
        → length (keep_if (is_active window later) granted)
          ≤ length (keep_if (is_active window later) stamps)
    pub limited : (start : ℕ) → length (keep_if (in_window window start) granted) ≤ max_requests

  Tracks-refused :
      (last now : ℕ) (stamps granted : List ℕ)
      → last ≤ now
      → Tracks last stamps granted
      → Tracks now (keep_if (is_active window now) stamps) granted
  Tracks-refused last now stamps granted le h = record {
    kept = λ later after.
        omega (arith, still_active window now later stamps after, h.kept later (omega arith));
    limited = h.limited;
  }

  Tracks-granted :
      (last now : ℕ) (stamps granted : List ℕ)
      → last ≤ now
      → Tracks last stamps granted
      → suc (length (keep_if (is_active window now) stamps)) ≤ max_requests
      → Tracks now (keep_if (is_active window now) stamps ++ (now ∷ [])) (granted ++ (now ∷ []))
  Tracks-granted last now stamps granted le h room = record {
    kept = λ later after. omega (
      arith,
      count_last (is_active window later) granted now,
      count_last (is_active window later) (keep_if (is_active window now) stamps) now,
      still_active window now later stamps after,
      h.kept later (omega arith),
    );
    limited = λ start. ground (
      arith,
      count_last (in_window window start) granted now,
      window_active window start now granted,
      h.kept now le,
      h.limited start,
    );
  }

  -- Runs of the limiter from an empty table, at times that never go back, in which the table never
  -- has more than `max_local_keys` keys.
  pub data History : ℕ → Dict (List ℕ) → (String → List ℕ) → Type 0 where
    begin : History 0 [] (λ key. [])
    call :
        {last : ℕ} {requests : Dict (List ℕ)} {grants : String → List ℕ} (key : String) (now : ℕ)
        → History last requests grants
        → last ≤ now
        → length (touch key requests) ≤ max_local_keys
        → History now
            (is_allowed_locally max_requests window key now requests).0
            (note_grant key now (is_allowed_locally max_requests window key now requests).1 grants)

  Tracks-later :
      (last now : ℕ) (stamps granted : List ℕ)
      → last ≤ now
      → Tracks last stamps granted
      → Tracks now stamps granted
  Tracks-later last now stamps granted le h = record {
    kept = λ later after. h.kept later (omega arith);
    limited = h.limited;
  }

  -- A call below the limit on keys: what it stores for each key, and its answer.
  stored_after :
      (key j : String) (now : ℕ) (requests : Dict (List ℕ))
      → length (touch key requests) ≤ max_local_keys
      → let active = keep_if (is_active window now) (stamps_of (lookup key requests)) in
        stamps_of (lookup j (is_allowed_locally max_requests window key now requests).0) ≡ (
          if key == j
          then (if leb max_requests (length active) then active else active ++ (now ∷ []))
          else stamps_of (lookup j requests))
  unfolding is_allowed_locally touch stamps_of
  stored_after key j now requests small = ground (
    arith,
    eq_iff key j,
    lookup-insert key j (stamps_of (lookup key requests)) requests,
    lookup-insert key j (keep_if (is_active window now) (stamps_of (lookup key requests)))
        (touch key requests),
    lookup-insert key j
        (keep_if (is_active window now) (stamps_of (lookup key requests)) ++ (now ∷ []))
        (touch key requests),
  )

  allowed_iff :
      (key : String) (now : ℕ) (requests : Dict (List ℕ))
      → (is_allowed_locally max_requests window key now requests).1
        ≡ not (
            leb max_requests
              (length (keep_if (is_active window now) (stamps_of (lookup key requests)))))
  unfolding is_allowed_locally
  allowed_iff key now requests = ground arith

  answer-Tracks :
      (last now : ℕ) (stamps granted : List ℕ)
      → last ≤ now
      → Tracks last stamps granted
      → (full : Bool) → leb max_requests (length (keep_if (is_active window now) stamps)) ≡ full
      → Tracks now
          (if full
            then keep_if (is_active window now) stamps
            else keep_if (is_active window now) stamps ++ (now ∷ []))
          (if not full then granted ++ (now ∷ []) else granted)
  answer-Tracks last now stamps granted le h true e = Tracks-refused last now stamps granted le h
  answer-Tracks last now stamps granted le h false e =
      Tracks-granted last now stamps granted le h (ground arith)

  step-Tracks :
      (key j : String) (last now : ℕ) (requests : Dict (List ℕ)) (grants : String → List ℕ)
      → last ≤ now
      → length (touch key requests) ≤ max_local_keys
      → Tracks last (stamps_of (lookup j requests)) (grants j)
      → Tracks now
          (stamps_of (lookup j (is_allowed_locally max_requests window key now requests).0))
          (note_grant key now (is_allowed_locally max_requests window key now requests).1 grants j)
  step-Tracks key j last now requests grants le small h =
      rw (stored_after key j now requests small, allowed_iff key now requests)
        (elim (Bool-cases (key == j)) [
          | inr other ↦
              rw (other, and_false)
                (Tracks-later last now (stamps_of (lookup j requests)) (grants j) le h)
          | inl same ↦
              rw (same, (eq_iff key j).0 same, and_true)
                (answer-Tracks last now (stamps_of (lookup j requests)) (grants j) le h _ refl)
        ])

  History-Tracks :
      {last : ℕ} {requests : Dict (List ℕ)} {grants : String → List ℕ}
      → History last requests grants
      → (key : String) → Tracks last (stamps_of (lookup key requests)) (grants key)
  unfolding lookup stamps_of
  History-Tracks begin key = record {
    kept = λ later h. omega arith;
    limited = λ start. omega arith;
  }
  History-Tracks (call {last = last} {requests = requests} {grants = grants} k now h le small) key =
      step-Tracks k key last now requests grants le small (History-Tracks h key)

  -- While the table holds at most 10000 keys, no key is granted more than `max_requests` requests
  -- in any window.
  pub granted_in_window :
      {last : ℕ} {requests : Dict (List ℕ)} {grants : String → List ℕ}
      → History last requests grants
      → (key : String) (start : ℕ)
      → length (keep_if (in_window window start) (grants key)) ≤ max_requests
  granted_in_window h key start = (History-Tracks h key).limited start
