-- ===== src/Tests.antt =====
-- Runs of the components on concrete input.
mod Matching
mod Sessions
mod Gating
mod Approvals
mod Callers
mod Arbiter
mod Proxying
mod Sharing
