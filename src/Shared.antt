-- ===== src/Shared.antt =====
-- lib/docintel-common/docintel_common: what the services share.
pub mod Security
pub mod InternalAuth
pub mod Profiles
