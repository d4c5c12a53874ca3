-- ===== src/Ca.antt =====
-- launcher/xlpod-server/src/ca.rs: the local certificate authority.
pub mod Base64
pub mod Pem
pub mod Certificate
pub mod Step
pub mod TrustStore
pub mod Authority
