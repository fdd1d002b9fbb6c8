-- ===== src/Ipc/Auth/Attempts.antt =====
-- How many wrong tokens are looked at before the caller is blocked (core-runtime/src/ipc/auth.rs).
use gg_core.Prelude.{
  ℕ, ◌+◌, ◌-◌, ◌^◌, ◌≤◌, ◌<◌, ◌≡◌, ◌≢◌, refl, sym, subst, ◌∙◌, inl, inr, Bool, true, false, Option,
  none, some, List, [], ◌∷◌, length, All, leb, if◌then◌else◌, Bool-cases, max, arith,
}
use gg_core.Ipc.Auth.{
  word, rate_limit_duration, attempt_window, Result, ok, err, AuthError, invalid_token, RateLimiter,
  is_rate_limited, record_failure, SessionAuth, constant_time_compare, authenticate,
}
use gg_core.Ipc.Auth.Compare.{IsByte, constant_time_compare-equal}

-- How many wrong tokens are looked at before the deadline, at most.
abbrev left_in_window : ℕ → ℕ
left_in_window failed = max (5 - failed) 1

-- With no window, five. A window may end before the deadline, and then five of the next one come on top.
abbrev left : ℕ → ℕ → Option ℕ → ℕ
left deadline failed none = 5
left deadline failed (some start) =
    if leb deadline (start + attempt_window)
    then left_in_window failed
    else (left_in_window failed + 4)

abbrev is_blocked : ℕ → Option ℕ → Bool
is_blocked deadline none = false
is_blocked deadline (some until) = leb deadline until

abbrev budget : ℕ → RateLimiter → ℕ
budget deadline l =
    if is_blocked deadline l.blocked_until
    then 0
    else left deadline l.failed_attempts l.window_start

abbrev limiter : ℕ → Option ℕ → Option ℕ → RateLimiter
limiter failed window blocked = record {
  failed_attempts = failed;
  window_start = window;
  blocked_until = blocked;
}

-- A wrong token that is looked at before the deadline takes one from the budget.
budget-record_failure :
    (deadline now failed : ℕ) (window blocked : Option ℕ)
    → now < deadline
    → deadline ≤ now + rate_limit_duration
    → failed + 1 < word
    → is_rate_limited now (limiter failed window blocked) ≡ false
    → budget deadline (record_failure now (limiter failed window blocked)) + 1
      ≤ budget deadline (limiter failed window blocked)
unfolding is_rate_limited record_failure
budget-record_failure deadline now failed none none before soon room free = ground arith
budget-record_failure deadline now failed none (some until) before soon room free = ground arith
budget-record_failure deadline now failed (some start) none before soon room free = ground arith
budget-record_failure deadline now failed (some start) (some until) before soon room free =
    ground arith

failed-record_failure :
    (now failed : ℕ) (window blocked : Option ℕ)
    → failed + 1 < word
    → (record_failure now (limiter failed window blocked)).failed_attempts ≤ failed + 1
unfolding record_failure
failed-record_failure now failed none blocked room = ground arith
failed-record_failure now failed (some start) blocked room = ground arith

budget_most : (deadline : ℕ) (l : RateLimiter) → budget deadline l ≤ 9
budget_most deadline l = most l.failed_attempts l.window_start l.blocked_until
  where
    most :
        (failed : ℕ) (window blocked : Option ℕ)
        → budget deadline (limiter failed window blocked) ≤ 9
    most failed none none = ground arith
    most failed none (some until) = ground arith
    most failed (some start) none = ground arith
    most failed (some start) (some until) = ground arith

module _ {T : Type 0} (dec : Discrete T) (digest : List ℕ → List ℕ) where
  -- The attempts of a caller: the time of each, its token, and the session id that it would get.
  pub record Attempt : Type 0 where
    pub at : ℕ
    pub id : T
    pub token : List ℕ

  -- How many of the attempts in a row were told that their token is wrong, the others being refused
  -- unseen, and whether no other answer was given.
  abbrev pub is_invalid : Result T → Bool
  is_invalid (ok id) = false
  is_invalid (err invalid_token) = true
  is_invalid (err AuthError.session_not_found) = false
  is_invalid (err AuthError.session_expired) = false
  is_invalid (err AuthError.not_authenticated) = false
  is_invalid (err AuthError.rate_limited) = false
  is_invalid (err AuthError.session_rate_limited) = false

  abbrev pub run : List Attempt → SessionAuth T → List (Result T) × SessionAuth T
  run [] a = ([], a)
  run (x ∷ xs) a =
      let (r, a') = authenticate dec digest x.at x.id x.token a in
      let (rs, a'') = run xs a' in (r ∷ rs, a'')

  abbrev pub invalids : List (Result T) → ℕ
  invalids [] = 0
  invalids (r ∷ rs) = (if is_invalid r then 1 else 0) + invalids rs

  -- A wrong token, within half a minute of a time.
  abbrev pub IsWrong : ℕ → List ℕ → Attempt → Type 0
  IsWrong from expected x =
      (from ≤ x.at)
      × (x.at < from + rate_limit_duration)
      × All IsByte (digest x.token)
      × (digest x.token ≢ expected)

  unequal :
      (xs ys : List ℕ)
      → All IsByte xs
      → All IsByte ys
      → xs ≢ ys
      → constant_time_compare xs ys ≡ false
  unequal xs ys bx by ne = elim (Bool-cases (constant_time_compare xs ys)) [
    | inl e ↦ absurd (ne ((constant_time_compare-equal xs ys bx by).0 e))
    | inr e ↦ e
  ]

  -- One attempt is refused unseen, or it takes one from the budget; no session comes or goes.
  record Refuses (deadline : ℕ) (a : SessionAuth T) (o : Result T × SessionAuth T) : Type 0 where
    paid :
        (if is_invalid o.0 then 1 else 0) + budget deadline o.1.rate_limiter
        ≤ budget deadline a.rate_limiter
    few : o.1.rate_limiter.failed_attempts ≤ a.rate_limiter.failed_attempts + 1
    same : o.1.expected_token_hash ≡ a.expected_token_hash
    sessions : o.1.sessions ≡ a.sessions

  authenticate-Refuses :
      (from : ℕ) (x : Attempt) (a : SessionAuth T)
      → All IsByte a.expected_token_hash
      → IsWrong from a.expected_token_hash x
      → a.rate_limiter.failed_attempts + 1 < word
      → Refuses (from + rate_limit_duration) a (authenticate dec digest x.at x.id x.token a)
  unfolding authenticate
  authenticate-Refuses from x a bytes (low, high, own, ne) room =
      let l = a.rate_limiter in
      elim (Bool-cases (is_rate_limited x.at l)) [
        | inl blocked ↦
            rw (blocked, authenticate)
              (record { paid = omega arith; few = omega arith; same = refl; sessions = refl })
        | inr free ↦
            let wrong = unequal (digest x.token) a.expected_token_hash own bytes ne in
            let cost =
              budget-record_failure (from + rate_limit_duration) x.at l.failed_attempts
                l.window_start l.blocked_until high (omega arith) room free in
            let count =
              failed-record_failure x.at l.failed_attempts l.window_start l.blocked_until room in
            rw (free, wrong, authenticate)
              (record { paid = omega (arith, cost); few = count; same = refl; sessions = refl })
      ]

  run-invalids :
      (from : ℕ) (xs : List Attempt) (a : SessionAuth T)
      → All IsByte a.expected_token_hash
      → All (IsWrong from a.expected_token_hash) xs
      → a.rate_limiter.failed_attempts + length xs < word
      → (invalids (run xs a).0 ≤ budget (from + rate_limit_duration) a.rate_limiter)
        × ((run xs a).1.sessions ≡ a.sessions)
  run-invalids from [] a bytes wrong room = (omega arith, refl)
  run-invalids from (x ∷ xs) a bytes (w, wrong) room =
      let o = authenticate dec digest x.at x.id x.token a in
      let one = authenticate-Refuses from x a bytes w (omega arith) in
      let (rest, kept) =
        run-invalids from xs o.1 (subst (All IsByte) (sym one.same) bytes)
          (subst (λ e. All (IsWrong from e) xs) (sym one.same) wrong) (omega (arith, one.few)) in
      (omega (arith, rest, one.paid), kept ∙ one.sessions)

  -- Of attempts with wrong tokens from a time on and less than 30 seconds after it, at most 9 are told
  -- that the token is wrong, whatever failures came before, and none makes or removes a session. The
  -- digests are bytes, and the count of failures stays below a machine word.
  pub invalids_bounded :
      (from : ℕ) (xs : List Attempt) (a : SessionAuth T)
      → All IsByte a.expected_token_hash
      → All (IsWrong from a.expected_token_hash) xs
      → a.rate_limiter.failed_attempts + length xs < 2 ^ 64
      → (invalids (run xs a).0 ≤ 9) × ((run xs a).1.sessions ≡ a.sessions)
  invalids_bounded from xs a bytes wrong room =
      let (most, kept) = run-invalids from xs a bytes wrong room in
      (omega (arith, most, budget_most (from + rate_limit_duration) a.rate_limiter), kept)
