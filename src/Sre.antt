-- ===== src/Sre.antt =====
-- sre-operations-05/sre: the SRE operations service, a module for each part.
pub mod Types
pub mod Incidents
pub mod Notifier
pub mod Library
pub mod Executor
pub mod Postmortem
pub mod Server
