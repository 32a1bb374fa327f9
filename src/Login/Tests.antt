-- ===== src/Login/Tests.antt =====
-- The login limit on a short run.
use Prim.Native.Nat.{min}
use so_ho_link.Base.{ap, ◌==◌, false≢true, ◌≡◌, refl, List, [], ◌∷◌, arith, text_equality}
use so_ho_link.Login.{
  LoginRateLimiter, new_login_rate_limiter, allow, record_failure, failing_login, succeeding_login,
}
use so_ho_link.Login.Limit.{Login, failing, succeeding, failures, let_through, let_through-exact}

abbrev limiter : LoginRateLimiter
limiter = new_login_rate_limiter 2 900

-- A third failure of the first address is refused, the second address is not concerned.
abbrev logins : List Login
logins =
    failing "10.0.0.1" 100
    ∷ failing "10.0.0.2" 150
    ∷ failing "10.0.0.1" 200
    ∷ succeeding "10.0.0.2" 250
    ∷ failing "10.0.0.1" 300
    ∷ []

let_through-logins : let_through "10.0.0.1" logins limiter ≡ 2
unfolding let_through failing_login succeeding_login allow record_failure
let_through-logins = refl

let_through-exact_example :
    let_through "10.0.0.1" logins limiter ≡ min 2 (failures "10.0.0.1" logins)
let_through-exact_example = let_through-exact "10.0.0.1" 100 logins limiter (omega arith) refl (
  λ e. (omega arith, omega arith),
  (
    λ e. (omega arith, omega arith),
    (
      λ e. (omega arith, omega arith),
      (λ e. false≢true (ap (λ x. x == "10.0.0.1") e), (λ e. (omega arith, omega arith), tt)),
    ),
  ),
)
