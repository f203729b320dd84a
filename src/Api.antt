-- ===== src/Api.antt =====
-- frontend/src/services/api.js: the base addresses, the stored fingerprint, and the requests.
pub mod Tests
pub mod Base
pub mod Storage
pub mod Request
