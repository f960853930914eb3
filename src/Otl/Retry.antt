-- ===== src/Otl/Retry.antt =====
-- `_request_with_retry` and `_arequest_with_retry` of backend/services/otl_client.py, which differ
-- only in `await`. `outcomes n` is what the n-th request comes to; delays are in milliseconds, and
-- `jitter n` is what the n-th `random.random() * 0.4` gives, in thousandths.
use native.Mathlib.Nat.{mul-le-mul}
use otl_voice.Prelude.{
  ℕ, zero, suc, ◌+◌, ◌*◌, ◌/◌, ◌^◌, ◌≤◌, ◌<◌, ◌≡◌, refl, sym, ◌⊎◌, inl, inr, Bool, true, false,
  ◌||◌, arith, min, ◌==◌, nat_eq, if◌then◌else◌, Bool-cases,
}

-- A response, one of `RETRYABLE_EXCEPTIONS`, or another exception.
pub data Outcome : Type 0 where
  responds : ℕ → Outcome
  network_error : Outcome
  other_error : Outcome

pub data Ending : Type 0 where
  returned : ℕ → Ending
  raised : Outcome → Ending

-- What a call comes to: its end, the requests it sent and the time it slept.
pub record Run : Type 0 where
  pub ending : Ending
  pub requests : ℕ
  pub slept : ℕ

abbrev pub is_retryable_status : ℕ → Bool
is_retryable_status status = status == 429 || status == 502 || status == 503 || status == 504

-- What is tried again while retries are left.
abbrev pub is_retryable : Outcome → Bool
is_retryable (responds status) = is_retryable_status status
is_retryable network_error = true
is_retryable other_error = false

abbrev pub ending_of : Outcome → Ending
ending_of (responds status) = returned status
ending_of network_error = raised network_error
ending_of other_error = raised other_error

le-cases : (a b : ℕ) → a ≤ b → (a ≡ b) ⊎ (suc a ≤ b)
le-cases a b h = ground arith

add_wait : {wait slept : ℕ} (left m : ℕ) → wait ≤ m → slept ≤ left * m → wait + slept ≤ suc left * m
add_wait left m h h' = grind arith

module _ (base_delay max_delay : ℕ) (jitter : ℕ → ℕ) (outcomes : ℕ → Outcome) where
  -- `min(base_delay * (2**attempt), max_delay) * (0.8 + random.random() * 0.4)`
  unfoldable pub delay : ℕ → ℕ
  delay attempt = min (base_delay * 2 ^ attempt) max_delay * (800 + jitter attempt) / 1000

  abbrev slept_before : ℕ → Run → Run
  slept_before wait r = record r { slept = wait + r.slept }

  -- The loop at an attempt, with so many retries left.
  unfoldable pub attempt_from : ℕ → ℕ → Run
  attempt_from zero attempt = record {
    ending = ending_of (outcomes attempt);
    requests = suc attempt;
    slept = 0;
  }
  attempt_from (suc left) attempt =
      let again = attempt_from left (suc attempt) in
      if is_retryable (outcomes attempt)
      then slept_before (delay attempt) again
      else record { ending = ending_of (outcomes attempt); requests = suc attempt; slept = 0 }

  unfoldable pub request_with_retry : Bool → ℕ → Run
  request_with_retry idempotent max_retries = attempt_from (if idempotent then max_retries else 0) 0

  -- How a run that begins at an attempt ends: with the outcome of its last request, after requests
  -- that all were to be tried again; and its last outcome is one only if no retry was left.
  pub record Ends (left attempt : ℕ) (r : Run) : Type 0 where
    pub last : ℕ
    pub counted : r.requests ≡ suc last
    pub begun : attempt ≤ last
    pub bounded : last ≤ attempt + left
    pub end : r.ending ≡ ending_of (outcomes last)
    pub retried : (n : ℕ) → attempt ≤ n → n < last → is_retryable (outcomes n) ≡ true
    pub final : (is_retryable (outcomes last) ≡ false) ⊎ (last ≡ attempt + left)
    pub rested : r.slept ≤ left * (max_delay * 1200 / 1000)

  jitter_bound : (attempt : ℕ) → jitter attempt ≤ 400 → 800 + jitter attempt ≤ 1200
  jitter_bound attempt h = omega arith

  delay-bound : (attempt : ℕ) → jitter attempt ≤ 400 → delay attempt ≤ max_delay * 1200 / 1000
  unfolding delay
  delay-bound attempt h =
      let low : min (base_delay * 2 ^ attempt) max_delay ≤ max_delay = omega arith in
      let product = mul-le-mul low (jitter_bound attempt h) in omega (arith, product)

  attempt_from-Ends :
      ((n : ℕ) → jitter n ≤ 400)
      → (left attempt : ℕ) → Ends left attempt (attempt_from left attempt)
  unfolding attempt_from
  attempt_from-Ends h zero attempt = record {
    last = attempt;
    counted = refl;
    begun = omega arith;
    bounded = omega arith;
    end = refl;
    retried = λ n low high. absurd (omega arith);
    final = inr (omega arith);
    rested = omega arith;
  }
  attempt_from-Ends h (suc left) attempt = elim (Bool-cases (is_retryable (outcomes attempt))) [
    | inr over ↦ rw over (record {
      last = attempt;
      counted = refl;
      begun = omega arith;
      bounded = omega arith;
      end = refl;
      retried = λ n low high. absurd (omega arith);
      final = inl over;
      rested = omega arith;
    })
    | inl again ↦
        let e = attempt_from-Ends h left (suc attempt) in
        rw again (record {
          last = e.last;
          counted = e.counted;
          begun = omega (arith, e.begun);
          bounded = omega (arith, e.bounded);
          end = e.end;
          retried = λ n low high. elim (le-cases attempt n low) [
            | inl same ↦ rw (sym same) again
            | inr above ↦ e.retried n above high
          ];
          final = elim e.final [ inl over ↦ inl over | inr used ↦ inr (omega (arith, used)) ];
          rested =
              add_wait left (max_delay * 1200 / 1000) (delay-bound attempt (h attempt)) e.rested;
        })
  ]

  -- A call sends one request and at most `max_retries` more, and only one if it is not idempotent. It
  -- ends with the outcome of its last request, all the requests before that were to be tried again,
  -- and the last one is not, unless no retry was left. It sleeps at most 1.2 times `max_delay` for
  -- each retry, if the jitter is at most 0.4.
  pub request_with_retry-Ends :
      (idempotent : Bool) (max_retries : ℕ)
      → ((n : ℕ) → jitter n ≤ 400)
      → Ends (if idempotent then max_retries else 0) 0 (request_with_retry idempotent max_retries)
  unfolding request_with_retry
  request_with_retry-Ends idempotent max_retries h =
      attempt_from-Ends h (if idempotent then max_retries else 0) 0
