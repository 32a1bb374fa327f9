-- ===== src/Login.antt =====
-- The limit on failed logins (internal/portal/ratelimit.go), and how the login handler of
-- internal/portal/server.go uses it. Each call is one step: a Load and the Store after it are not
-- interleaved with another call.
pub mod Limit
pub mod Tests
use so_ho_link.Base.{
  ℕ, ◌+◌, ◌-◌, String, Bool, true, false, Option, none, some, List, [], ◌∷◌, ltb, leb,
  if◌then◌else◌, text_equality,
}
use so_ho_link.Base.Assoc.{lookup, insert, remove}

pub record AttemptRecord : Type 0 where
  pub count : ℕ
  pub window_start : ℕ

pub record LoginRateLimiter : Type 0 where
  pub attempts : List (String × AttemptRecord)
  pub max_attempts : ℕ
  pub window : ℕ

abbrev pub new_login_rate_limiter : ℕ → ℕ → LoginRateLimiter
new_login_rate_limiter max_attempts window = record {
  attempts = [];
  max_attempts = max_attempts;
  window = window;
}

-- time.Since(rec.WindowStart) > rl.window, where a start in the future is not past.
abbrev pub is_past : ℕ → ℕ → AttemptRecord → Bool
is_past window now r = ltb window (now - r.window_start)

abbrev pub reset : String → LoginRateLimiter → LoginRateLimiter
reset ip rl = record rl { attempts = remove ip rl.attempts }

abbrev pub judge_attempts :
    String → ℕ → LoginRateLimiter → Option AttemptRecord → Bool × LoginRateLimiter
judge_attempts ip now rl none = (true, rl)
judge_attempts ip now rl (some r) =
    if is_past rl.window now r then (true, reset ip rl) else (ltb r.count rl.max_attempts, rl)

unfoldable pub allow : String → ℕ → LoginRateLimiter → Bool × LoginRateLimiter
allow ip now rl = judge_attempts ip now rl (lookup ip rl.attempts)

abbrev pub next_record : ℕ → ℕ → Option AttemptRecord → AttemptRecord
next_record window now none = record { count = 1; window_start = now }
next_record window now (some r) =
    if is_past window now r
    then record { count = 1; window_start = now }
    else record r { count = r.count + 1 }

unfoldable pub record_failure : String → ℕ → LoginRateLimiter → LoginRateLimiter
record_failure ip now rl = record rl {
  attempts = insert ip (next_record rl.window now (lookup ip rl.attempts)) rl.attempts;
}

-- What a login does to the limiter: it asks, and tells how it ended.
unfoldable pub failing_login : String → ℕ → LoginRateLimiter → Bool × LoginRateLimiter
unfolding allow record_failure
failing_login ip now rl =
    let (allowed, asked) = allow ip now rl in
    (allowed, if allowed then record_failure ip now asked else asked)

unfoldable pub succeeding_login : String → ℕ → LoginRateLimiter → Bool × LoginRateLimiter
unfolding allow
succeeding_login ip now rl =
    let (allowed, asked) = allow ip now rl in (allowed, if allowed then reset ip asked else asked)
