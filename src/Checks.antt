-- ===== src/Checks.antt =====
-- Test runs of the model, and each theorem at a concrete input that meets its hypotheses.
mod Runtime
mod Hub
mod Limits
mod Graph
mod Flights
mod Quota
mod Layered
mod Entities
mod Sql
