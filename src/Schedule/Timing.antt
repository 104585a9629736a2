-- ===== src/Schedule/Timing.antt =====
-- When a rule with a time of the day is due: isDue of worker/src/scheduler.ts.
