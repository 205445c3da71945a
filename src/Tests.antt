-- ===== src/Tests.antt =====
-- The theorems at concrete inputs.
mod Forwards
mod Services
mod Reports
mod Reset
mod Links
mod Access
mod Waits
mod Tunnels
mod Order
mod NodeRows
mod NodeServices
mod Reconcile
