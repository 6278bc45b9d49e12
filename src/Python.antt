-- ===== src/Python.antt =====
-- What the studies use of Python and do not implement: floats and JSON values.
pub mod Floats
pub mod Tenths
pub mod Json
pub mod Equality
pub mod Hex
pub mod Sorted
