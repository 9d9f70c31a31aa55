-- ===== src/Tests.antt =====
-- Runs of the definitions, and the theorems applied, on inputs that can be followed in the source.
pub mod ParserRuns
mod ParserStates
mod ConnectionRuns
mod ServerRuns
mod ClientRuns
mod Messages
mod Values
