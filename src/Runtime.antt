-- ===== src/Runtime.antt =====
-- src/fin_data_platform/runtime: the control plane. Jobs are queued, gated, claimed, executed and
-- retried; their state stands in a metadata repository that all roles share.
pub mod Models
pub mod Keys
pub mod Repository
pub mod Registry
pub mod Scheduler
pub mod Dispatcher
pub mod Worker
pub mod Calendar
pub mod Windows
pub mod Sql
