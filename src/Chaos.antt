-- ===== src/Chaos.antt =====
-- chaos-ci-gate-06: the chaos gate, a module for each part.
pub mod Budget
pub mod Bridge
pub mod Injector
pub mod Runner
pub mod Orchestrator
