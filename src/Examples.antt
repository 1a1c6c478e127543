-- ===== src/Examples.antt =====
-- Concrete orders, fills, logs and gateways, and the theorems at them.
mod Sample
mod Log
mod Layout
mod Orders
mod History
mod Positions
mod Gateway
mod Reconcile
mod Recovery
mod Reports
mod Trace
mod Session
mod Readers
mod Main
mod Types
