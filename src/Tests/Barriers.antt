-- ===== src/Tests/Barriers.antt =====
-- The theorem on the thread barrier for three threads.
