-- ===== src/Log/Tests.antt =====
-- Runs of the log ring, and its theorem at a concrete message.
use aurora_os_live.Base.{ℕ, ◌≡◌, [], ◌∷◌, replicate, length-replicate, arith}
use aurora_os_live.Log.{Log, log_ring_write, log_ring_read}
use aurora_os_live.Log.Ring.{empty-IsLog, log_ring_read-log_ring_write}

abbrev empty : Log
empty = record { log_ring = replicate 4096 0; log_wpos = 0 }

log_ring_read-log_ring_write_example :
    log_ring_read 4096 (log_ring_write (111 ∷ 107 ∷ []) empty) ≡ 111 ∷ 107 ∷ []
log_ring_read-log_ring_write_example =
    log_ring_read-log_ring_write 4096 (111 ∷ 107 ∷ []) [] empty
      (empty-IsLog (replicate 4096 0) (length-replicate {A = ℕ} 4096 0)) (omega arith) (omega arith)
      (omega arith) (omega arith)
