-- ===== src/Proxy.antt =====
-- pkg/proxy: the proxy that forwards a client's calls, with the gates around the policy.
pub mod Context
pub mod Outcome
pub mod Calls
pub mod Handler
