-- ===== src/Ipc/Auth/Tests.antt =====
-- Six wrong tokens in six seconds; the digest is the token itself.
use gg_core.Prelude.{ℕ, ◌≤◌, ◌<◌, ◌≡◌, ◌↔◌, refl, true, none, List, [], ◌∷◌, ℕ_discrete, arith}
use gg_core.Ipc.Auth.{
  seconds, err, invalid_token, rate_limited, SessionAuth, constant_time_compare, authenticate,
}
use gg_core.Ipc.Auth.Compare.{constant_time_compare-equal}
use gg_core.Ipc.Auth.Attempts.{Attempt, IsWrong, run, invalids, invalids_bounded}

abbrev digest : List ℕ → List ℕ
digest token = token

abbrev server : SessionAuth ℕ
server = record {
  sessions = [];
  expected_token_hash = 1 ∷ 2 ∷ [];
  session_timeout = seconds 3600;
  rate_limiter = record { failed_attempts = 0; window_start = none; blocked_until = none };
}

abbrev guess : ℕ → Attempt ℕ_discrete digest
guess n = record { at = seconds n; id = n; token = 9 ∷ 9 ∷ [] }

abbrev guesses : List (Attempt ℕ_discrete digest)
guesses = guess 1 ∷ guess 2 ∷ guess 3 ∷ guess 4 ∷ guess 5 ∷ guess 6 ∷ []

sixth_blocked :
    (run ℕ_discrete digest guesses server).0
    ≡ err invalid_token
      ∷ err invalid_token
      ∷ err invalid_token
      ∷ err invalid_token
      ∷ err invalid_token
      ∷ err rate_limited
      ∷ []
unfolding authenticate
sixth_blocked = refl

guess-IsWrong : (n : ℕ) → n < 30 → IsWrong ℕ_discrete digest 0 (1 ∷ 2 ∷ []) (guess n)
guess-IsWrong n h = (omega arith, omega arith, omega arith, λ e. ground (arith, e))

invalids_bounded_example :
    (invalids ℕ_discrete digest (run ℕ_discrete digest guesses server).0 ≤ 9)
    × ((run ℕ_discrete digest guesses server).1.sessions ≡ [])
invalids_bounded_example =
    invalids_bounded ℕ_discrete digest 0 guesses server (omega arith)
      (
        guess-IsWrong 1 (omega arith),
        (
          guess-IsWrong 2 (omega arith),
          (
            guess-IsWrong 3 (omega arith),
            (
              guess-IsWrong 4 (omega arith),
              (guess-IsWrong 5 (omega arith), (guess-IsWrong 6 (omega arith), tt)),
            ),
          ),
        ),
      )
      (omega arith)

abbrev stored_digest : List ℕ
stored_digest = 1 ∷ 255 ∷ []

abbrev other_digest : List ℕ
other_digest = 1 ∷ 254 ∷ []

constant_time_compare-equal_example :
    (constant_time_compare stored_digest other_digest ≡ true) ↔ (stored_digest ≡ other_digest)
constant_time_compare-equal_example =
    constant_time_compare-equal stored_digest other_digest (omega arith) (omega arith)
