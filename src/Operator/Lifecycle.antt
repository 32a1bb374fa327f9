-- ===== src/Operator/Lifecycle.antt =====
-- The registry's operations as steps, for what holds whatever is called and whichever statements
-- fail.
pub mod Untouched
pub mod Conforming
pub mod Keys
pub mod ActiveKeys
pub mod Unique
pub mod Gates
pub mod Passes
pub mod Authority
pub mod Shut
pub mod Revoked
pub mod Challenges
pub mod Verdicts
use so_ho_link.Base.{ℕ, String, ℤ, Bool, List, Option}
use so_ho_link.Store.{World}
use so_ho_link.Operator.Tables.{NonceScope, FeeRow}
use so_ho_link.Operator.Accounts.{KeyMap, create_operator, mark_email_verified, revoke, disconnect}
use so_ho_link.Operator.Activation.{mark_conformance_passed, auto_activate, add_keys}
use so_ho_link.Operator.Rotation.{
  OperatorRotation, record_usage_and_expire, register_replacement_key,
}
use so_ho_link.Operator.Replay.{check_and_advance}
use so_ho_link.Operator.Verification.{issue_email_code, check_email_code}
use so_ho_link.Operator.Fees.{publish_fee_declaration}
use so_ho_link.Operator.Conformance.{Library, Draw, start_conformance_run}
use so_ho_link.Operator.Conformance.Grading.{
  ResponseA, ResponseB, grade_suite_a, grade_suite_b, grade_suite_c,
}
use so_ho_link.Operator.Conformance.Finalize.{finalize_run}

-- `sha256` is the hash of the standard library, `verify` the protocol library's Verify of a rotation,
-- and `lib` what conformance runs use of it.
module _ (sha256 : List ℕ → List ℕ) (verify : OperatorRotation → KeyMap → Bool)
    (lib : Library) where
  pub data Step : World → World → Type 0 where
    create :
        (id name : String) (email phone : List ℕ) (w : World)
        → Step w (create_operator id name email phone w).1
    verify_email : (id : String) (w : World) → Step w (mark_email_verified id w).1
    pass : (id : String) (w : World) → Step w (mark_conformance_passed sha256 id w).1
    activate : (id : String) (w : World) → Step w (auto_activate sha256 id w).1
    register :
        (id : String) (pubkeys : List (List ℕ)) (algo : String) (thresholds : List ℤ) (w : World)
        → Step w (add_keys id pubkeys algo thresholds w).1
    sign : (id : String) (i₀ i₁ : ℕ) (w : World) → Step w (record_usage_and_expire id i₀ i₁ w).1
    rotate :
        (rot : OperatorRotation) (threshold : ℤ) (w : World)
        → Step w (register_replacement_key verify rot threshold w).1
    revoke_operator : (id : String) (w : World) → Step w (revoke id w).1
    disconnect_operator : (id : String) (w : World) → Step w (disconnect id w).1
    transmit :
        (o c : String) (seq : ℕ) (nonce : List ℕ) (scope : NonceScope) (expiry : ℕ) (w : World)
        → Step w (check_and_advance o c seq nonce scope expiry w).1
    issue_code :
        (drawn : Option ℕ) (id session : String) (w : World)
        → Step w (issue_email_code drawn id session w).1
    check_code :
        (id session : String) (code : List ℕ) (w : World)
        → Step w (check_email_code id session code w).1
    publish : (decl : FeeRow) (w : World) → Step w (publish_fee_declaration decl w).1
    start_run :
        (run id : String) (a b : Draw) (w : World)
        → Step w (start_conformance_run lib run id a b w).1
    grade_a :
        (id run : String) (resp : ResponseA) (w : World)
        → Step w (grade_suite_a lib id run resp w).1
    grade_b :
        (id run : String) (resp : ResponseB) (w : World)
        → Step w (grade_suite_b lib id run resp w).1
    grade_c : (id run : String) (draw : Draw) (w : World) → Step w (grade_suite_c id run draw w).1
    finalize : (id run : String) (w : World) → Step w (finalize_run sha256 id run w).1

  pub data Reach (v : World) : World → Type 0 where
    here : Reach v v
    next : {w u : World} → Reach v w → Step w u → Reach v u
