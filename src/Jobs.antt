-- ===== src/Jobs.antt =====
-- The life of a job: internal/orchestrator/orchestrator.go places, re-places and expires it,
-- internal/store/dispatch.go and internal/api/nodes.go hand it to its node and take the outcome,
-- internal/portal/server.go confirms and hands over prints, internal/protocoladapter/adapter.go
-- is the signed path of the same.
pub mod Requests
pub mod Submit
pub mod Lifecycle
pub mod Expire
pub mod Reroute
pub mod Dispatch
pub mod Portal
pub mod Protocol
mod Tests
mod NodeTests
mod SubmitTests
mod PortalTests
mod RerouteTests
