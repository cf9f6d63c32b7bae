-- ===== src/SignedPlan.antt =====
-- Signed plans (src/signed_plan): the text patterns, strict JSON, the canonical text and the schema.
pub mod Text
pub mod Value
pub mod Jcs
pub mod Crypto
pub mod Strict
pub mod Schema
pub mod Codes
pub mod Trust
pub mod Verify
