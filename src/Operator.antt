-- ===== src/Operator.antt =====
-- The coordinator's operator registry (internal/operator): its limits. The parts are in the
-- children, and the tables that they keep are in Store.
pub mod Tables
pub mod Sql
pub mod Holds
pub mod Accounts
pub mod Activation
pub mod Rotation
pub mod Replay
pub mod Verification
pub mod Fees
pub mod Conformance
pub mod Lifecycle
pub mod Keyset
pub mod Tests
pub mod RunTests
pub mod Window
use so_ho_link.Base.{ℕ}

-- The number of keys of an operator, KeyIndexCount of the protocol library.
abbrev pub key_index_count : ℕ
key_index_count = 7

abbrev pub min_active_keys : ℕ
min_active_keys = 3
