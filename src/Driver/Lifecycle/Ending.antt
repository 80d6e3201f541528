-- ===== src/Driver/Lifecycle/Ending.antt =====
-- A handle is opened and closed in finite time.
