-- ===== src/Kube.antt =====
-- pkg/kube: objects, the labels that tie reports to their owners, and the resolver of owners.
pub mod Kind
pub mod Object
pub mod Reference
pub mod Resolver
pub mod Server
