-- ===== src/Operator.antt =====
-- pkg/operator and pkg/starboard: the operator's configuration, the predicates that filter events, the limit
-- on scan jobs, and the expiry of reports.
pub mod Config
pub mod Limit
pub mod Expiry
pub mod Predicate
