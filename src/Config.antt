-- ===== src/Config.antt =====
-- internal/config/config.go: the configuration, read from the environment.
pub mod Env
pub mod Uri
pub mod Load
pub mod Numbers
pub mod Secrets
mod Tests
