-- ===== src/Driver.antt =====
-- src/driver.rs with src/driver/uri.rs and src/driver/credentials.rs: a database's options, its
-- connection URI, its credentials, and the client stack that its connections share.
pub mod Config
pub mod Uri
pub mod Connect
