-- ===== src/CacheForge.antt =====
-- The CacheForge case study (case-studies/cacheforge): a bounded block cache, the policies that
-- propose evictions, the authority that checks them, and the simulator that drives all three.
pub mod Model
pub mod State
pub mod Policies
pub mod Authority
pub mod Simulator
pub mod Scenarios
mod Examples
