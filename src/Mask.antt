-- ===== src/Mask.antt =====
-- The masking functions of backend/app/services/masking.py, on the code points of a value.
pub mod Scan
pub mod Infer
pub mod Partial
pub mod Full
