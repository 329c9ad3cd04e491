-- ===== src/Hub.antt =====
-- src/fin_data_hub: the data hub that fetches and caches what the platform stores.
pub mod Cache
pub mod Flights
pub mod Limiter
pub mod Retry
