-- ===== src/Policy.antt =====
-- pkg/policy: the rules, and how a request is judged by them.
pub mod Engine
pub mod Match
pub mod Guards
pub mod Cel
pub mod Rules
pub mod Loader
