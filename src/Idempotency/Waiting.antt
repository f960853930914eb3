-- ===== src/Idempotency/Waiting.antt =====
-- `IdempotencyStore.wait_for_result` of backend/services/idempotency.py. `reads n` is what the n-th
-- `self._backend.read(key)` gives, `clock n` the reading of `time.monotonic()` in the n-th test, and
-- `late n` its reading in front of the n-th `time.sleep`.
use otl_voice.Prelude.{
  ℕ, zero, suc, ◌+◌, ◌-◌, ◌*◌, ◌/◌, ◌≤◌, ◌<◌, ◌≡◌, refl, min, false, Option, none, some, arith, leb,
  if◌then◌else◌, Bool-cases, leb→le, inl, inr,
}
use otl_voice.Prelude.Dict.{Dict}
use otl_voice.Prelude.Result.{Result, ok, err}
use otl_voice.Python.Value.{Value}
use otl_voice.Idempotency.Record.{pending_result}
use otl_voice.Idempotency.Sqlite.{Unavailable}

-- `min(self.poll_seconds, max(0.0, deadline - time.monotonic()))`
abbrev pub pause : ℕ → ℕ → ℕ → ℕ
pause poll deadline now = min poll (deadline - now)

ltb_of_leb : (a b : ℕ) → leb a b ≡ false → b < a
ltb_of_leb a b h = ground arith

rounds : (n : ℕ) → n + 2 ≡ suc (suc n)
rounds n = omega arith

enough :
    (start wait poll now : ℕ)
    → start ≤ now
    → 0 < poll
    → start + wait ≤ now + suc (wait / poll) * poll
enough start wait poll now begun pos = grind arith

module _ (reads : ℕ → Result Unavailable (Option (Dict Value))) (clock : ℕ → ℕ) (deadline : ℕ) where
  -- The loop from its n-th round; `none` means that the fuel ran out.
  unfoldable pub wait_from : ℕ → ℕ → Option (Result Unavailable (Dict Value))
  wait_from zero n = none
  wait_from (suc fuel) n =
      let rest = wait_from fuel (suc n) in
      elim (reads n) [
        | err e ↦ some (err e)
        | ok (some result) ↦ some (ok result)
        | ok none ↦ if leb deadline (clock n) then some (ok pending_result) else rest
      ]

  -- What a call that begins at the n-th round may return.
  pub data Waits : ℕ → Result Unavailable (Dict Value) → Type 0 where
    failed : (n : ℕ) (e : Unavailable) → reads n ≡ err e → Waits n (err e)
    found : (n : ℕ) (result : Dict Value) → reads n ≡ ok (some result) → Waits n (ok result)
    expired : (n : ℕ) → reads n ≡ ok none → deadline ≤ clock n → Waits n (ok pending_result)
    again :
        (n : ℕ) {r : Result Unavailable (Dict Value)}
        → reads n ≡ ok none
        → clock n < deadline
        → Waits (suc n) r
        → Waits n r

  abbrev Returned : ℕ → ℕ → Type 0
  Returned fuel n = (r : Result Unavailable (Dict Value)) × (wait_from fuel n ≡ some r) × Waits n r

  round :
      (fuel n : ℕ) (seen : Result Unavailable (Option (Dict Value)))
      → reads n ≡ seen
      → (clock n < deadline → Returned fuel (suc n))
      → Returned (suc fuel) n
  unfolding wait_from
  round fuel n (err e) read rest = (err e, rw (read, wait_from), failed n e read)
  round fuel n (ok (some result)) read rest = (ok result, rw (read, wait_from), found n result read)
  round fuel n (ok none) read rest = elim (Bool-cases (leb deadline (clock n))) [
    | inl over ↦
        (ok pending_result, rw (read, wait_from) (rw over), expired n read (leb→le _ _ over))
    | inr early ↦
        let before = ltb_of_leb deadline (clock n) early in
        let (r, returned, waits) = rest before in
        (r, rw (read, wait_from) (rw early returned), again n read before waits)
  ]

  module _ (late : ℕ → ℕ) (poll : ℕ) (later : (n : ℕ) → clock n ≤ late n)
      (slept : (n : ℕ) → late n + pause poll deadline (late n) ≤ clock (suc n)) where
    wait_from-returns : (fuel n : ℕ) → deadline ≤ clock n + fuel * poll → Returned (suc fuel) n
    wait_from-returns zero n enough = round 0 n (reads n) refl (λ early. absurd (omega arith))
    wait_from-returns (suc fuel) n enough =
        round (suc fuel) n (reads n) refl
          (λ early. wait_from-returns fuel (suc n) (omega (arith, later n, slept n)))

-- The loop that begins at a reading of the clock `wait` below its deadline ends within
-- `wait / poll + 2` rounds, if the clock never runs backwards and a sleep lasts as long as it is
-- asked to. It returns the first result or failure that a read gives, and the pending result only
-- when a read finds nothing at the deadline or later.
pub wait_for_result-returns :
    (reads : ℕ → Result Unavailable (Option (Dict Value))) (clock late : ℕ → ℕ)
    (start wait poll : ℕ)
    → start ≤ clock 0
    → 0 < poll
    → ((n : ℕ) → clock n ≤ late n)
    → ((n : ℕ) → late n + pause poll (start + wait) (late n) ≤ clock (suc n))
    → (r : Result Unavailable (Dict Value)) × (wait_from reads clock
          (start + wait)
          (wait / poll + 2)
          0
        ≡ some r)
      × Waits reads clock (start + wait) 0 r
wait_for_result-returns reads clock late start wait poll begun pos later slept =
    rw (rounds (wait / poll)) (
      wait_from-returns reads clock (start + wait) late poll later slept (suc (wait / poll)) 0
        (enough start wait poll (clock 0) begun pos))
