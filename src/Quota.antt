-- ===== src/Quota.antt =====
-- src/fin_data_platform/quota: the rate limit that several processes share.
pub mod Shared
