-- ===== src/Keys.antt =====
-- src/keys: what a consumer keeps of device directories, and the certificates of devices.
pub mod Signed
pub mod DirectoryCache
pub mod Certificate
mod Tests
