-- ===== src/Hooks.antt =====
-- The webhook intake (src/local/hooks).
pub mod Limits
pub mod Plan
