-- ===== src/Ipc/Auth.antt =====
-- core-runtime/src/ipc/auth.rs and auth_session.rs: sessions of authenticated callers and the limit on
-- failed attempts. SHA-256, the random session id and the clock are arguments; times are in nanoseconds,
-- and locks are never poisoned. The delay of validate changes nothing and is left out.
pub mod Compare
pub mod Attempts
pub mod Tests
use Prim.Native.Nat.{bit_or, bit_xor}
use gg_core.Prelude.{
  ℕ, zero, suc, ◌+◌, ◌-◌, ◌*◌, ◌%◌, ◌^◌, Bool, true, false, Option, none, some, List, [], ◌∷◌,
  length, ltb, leb, ◌==◌, if◌then◌else◌,
}
use gg_core.Prelude.HashMap as HashMap

abbrev pub word : ℕ
word = 2 ^ 64

abbrev pub seconds : ℕ → ℕ
seconds n = n * 1000000000

abbrev pub max_failed_attempts : ℕ
max_failed_attempts = 5

abbrev pub rate_limit_duration : ℕ
rate_limit_duration = seconds 30

abbrev pub attempt_window : ℕ
attempt_window = seconds 60

abbrev pub max_requests_per_minute : ℕ
max_requests_per_minute = 1000

abbrev pub request_window : ℕ
request_window = seconds 60

pub data AuthError : Type 0 where
  invalid_token session_not_found session_expired not_authenticated : AuthError
  rate_limited session_rate_limited : AuthError

pub data Result (A : Type 0) : Type 0 where
  ok : A → Result A
  err : AuthError → Result A

pub record Session : Type 0 where
  pub created_at : ℕ
  pub last_activity : ℕ
  pub connection_count : ℕ
  pub request_count : ℕ
  pub request_window_start : Option ℕ

pub record RateLimiter : Type 0 where
  pub failed_attempts : ℕ
  pub window_start : Option ℕ
  pub blocked_until : Option ℕ

unfoldable pub new_limiter : RateLimiter
new_limiter = record { failed_attempts = 0; window_start = none; blocked_until = none }

unfoldable pub is_rate_limited : ℕ → RateLimiter → Bool
is_rate_limited now l = elim l.blocked_until [ none ↦ false | some until ↦ ltb now until ]

-- Whether more than a window has passed since its start, or there is none.
abbrev pub is_past : ℕ → ℕ → Option ℕ → Bool
is_past window now none = true
is_past window now (some start) = ltb window (now - start)

unfoldable pub record_failure : ℕ → RateLimiter → RateLimiter
record_failure now l =
    if is_past attempt_window now l.window_start
    then record l { failed_attempts = 1; window_start = some now }
    else let attempts = (l.failed_attempts + 1) % word in
      if leb max_failed_attempts attempts
      then record l { failed_attempts = attempts; blocked_until = some (now + rate_limit_duration) }
      else record l { failed_attempts = attempts }

unfoldable pub reset : RateLimiter → RateLimiter
reset l = record { failed_attempts = 0; window_start = none; blocked_until = none }

-- The fold over both arrays: acc | (x ^ y).
unfoldable pub difference : ℕ → List ℕ → List ℕ → ℕ
difference acc [] ys = acc
difference acc (x ∷ xs) [] = acc
difference acc (x ∷ xs) (y ∷ ys) = difference (bit_or acc (bit_xor x y)) xs ys

unfoldable pub constant_time_compare : List ℕ → List ℕ → Bool
unfolding difference
constant_time_compare a b = if length a == length b then difference 0 a b == 0 else false

pub record SessionAuth (T : Type 0) : Type 0 where
  pub sessions : List (T × Session)
  pub expected_token_hash : List ℕ
  pub session_timeout : ℕ
  pub rate_limiter : RateLimiter

abbrev pub fresh : ℕ → Session
fresh now = record {
  created_at = now;
  last_activity = now;
  connection_count = 0;
  request_count = 0;
  request_window_start = some now;
}

module _ {T : Type 0} where
  unfoldable pub new : (List ℕ → List ℕ) → List ℕ → ℕ → SessionAuth T
  unfolding new_limiter
  new digest expected_token session_timeout = record {
    sessions = [];
    expected_token_hash = digest expected_token;
    session_timeout = session_timeout;
    rate_limiter = new_limiter;
  }

  -- retain(|_, s| s.created_at.elapsed() <= timeout)
  unfoldable pub retain : ℕ → ℕ → List (T × Session) → List (T × Session)
  retain now timeout [] = []
  retain now timeout ((k, s) ∷ ss) =
      let rest = retain now timeout ss in
      if leb (now - s.created_at) timeout then (k, s) ∷ rest else rest

  unfoldable pub cleanup : ℕ → SessionAuth T → SessionAuth T
  unfolding retain
  cleanup now a = record a { sessions = retain now a.session_timeout a.sessions }

module _ {T : Type 0} (dec : Discrete T) where
  -- `id` is the session id that the generator makes.
  unfoldable pub authenticate :
      (List ℕ → List ℕ) → ℕ → T → List ℕ → SessionAuth T → Result T × SessionAuth T
  unfolding is_rate_limited constant_time_compare record_failure reset
  authenticate digest now id token a =
      if is_rate_limited now a.rate_limiter
      then (err rate_limited, a)
      else if constant_time_compare (digest token) a.expected_token_hash
      then (
        ok id,
        record a {
          sessions = HashMap.insert dec id (fresh now) a.sessions;
          rate_limiter = reset a.rate_limiter;
        },
      )
      else (err invalid_token, record a { rate_limiter = record_failure now a.rate_limiter })

  abbrev pub put_session : T → Session → SessionAuth T → SessionAuth T
  put_session token s a = record a { sessions = HashMap.modify dec token (λ _. s) a.sessions }

  -- The session after a request, and whether the request is within the limit.
  abbrev pub count_request : ℕ → Session → Bool × Session
  count_request now s =
      if is_past request_window now s.request_window_start
      then (true, record s { request_count = 1; request_window_start = some now })
      else let count = (s.request_count + 1) % word in
        (leb count max_requests_per_minute, record s { request_count = count })

  abbrev pub answered : ℕ → T → Bool × Session → SessionAuth T → Result (Unit {0}) × SessionAuth T
  answered now token (true, s) a = (ok tt, put_session token (record s { last_activity = now }) a)
  answered now token (false, s) a = (err session_rate_limited, put_session token s a)

  unfoldable pub validate : ℕ → T → SessionAuth T → Result (Unit {0}) × SessionAuth T
  validate now token a = elim (HashMap.get dec token a.sessions) [
    | none ↦ (err session_not_found, a)
    | some s ↦
        if ltb a.session_timeout (now - s.created_at)
        then (err session_expired, record a { sessions = HashMap.remove dec token a.sessions })
        else answered now token (count_request now s) a
  ]

  unfoldable pub track_connection : T → SessionAuth T → Result ℕ × SessionAuth T
  track_connection token a = elim (HashMap.get dec token a.sessions) [
    | none ↦ (err session_not_found, a)
    | some s ↦
        let count = (s.connection_count + 1) % word in
        (ok count, put_session token (record s { connection_count = count }) a)
  ]

  unfoldable pub release_connection : T → SessionAuth T → SessionAuth T
  release_connection token a = elim (HashMap.get dec token a.sessions) [
    | none ↦ a
    | some s ↦
        put_session token (record s { connection_count = (s.connection_count + (word - 1)) % word })
          a
  ]

  unfoldable pub connection_count : T → SessionAuth T → Result ℕ
  connection_count token a = elim (HashMap.get dec token a.sessions) [
    | none ↦ err session_not_found
    | some s ↦ ok s.connection_count
  ]
