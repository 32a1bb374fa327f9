-- ===== src/Operator/Window/Refines.antt =====
-- advanceWindow of internal/operator/repository.go against the set of numbers that it stands for.
mod Shift
mod Seen
mod Runs
pub use Shift.*
pub use Seen.*
pub use Runs.*
