-- ===== src/Leases/Ids.antt =====
-- Leases and ids together: the ids of two processes with unexpired leases differ.
