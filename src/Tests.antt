-- ===== src/Tests.antt =====
-- The theorems at concrete inputs.
mod Incidents
mod Service
mod Weights
mod Faults
mod Learning
mod Control
mod Handlers
mod Listings
mod Models
mod Scoring
mod Halts
mod Commands
mod Days
