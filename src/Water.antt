-- ===== src/Water.antt =====
-- The remote water control study, case-studies/remote-water-control: telemetry, a planner that
-- proposes, a safety kernel that decides, a journal of authorized intents, and a simulated plant.
pub mod Model
pub mod Journal
pub mod Checkpoint
pub mod Safety
pub mod Planner
pub mod Controller
pub mod Plant
pub mod Simulation
pub mod Scenarios
mod Examples
