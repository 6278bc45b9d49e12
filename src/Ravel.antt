-- ===== src/Ravel.antt =====
-- The RAVEL 0.5 evaluator, case-studies/ravel/tools/ravel_0_5_evaluator.py: it admits raw
-- observations against a preregistration, derives metrics and decides gates.
pub mod Values
pub mod Arithmetic
pub mod Observations
pub mod Seeds
pub mod Preregistration
pub mod Trials
pub mod Metrics
pub mod Gates
pub mod Evaluation
pub mod Records
mod Examples
