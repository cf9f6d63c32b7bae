-- ===== src/Sched.antt =====
-- The local scheduler (src/local/sched).
pub mod Cron
