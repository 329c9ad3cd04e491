-- ===== src/Entities.antt =====
-- src/fin_data_platform/registry: the identities of securities and issuers, kept as rows that are only
-- ever appended. A row is valid from one day to another, both included; the day of its end is missing
-- while it is open. A later row of the same start, by its version, replaces an earlier one.
pub mod Models
pub mod Store
pub mod Rows
pub mod Codes
pub mod Service
pub mod Changes
pub mod Relations
pub mod ExternalIds
pub mod Valid
pub mod Calls
pub mod Batch
pub mod Universe
