-- ===== src/Pool.antt =====
-- include/common/threadpool.h: the queue of a worker's jobs, and the pool of workers.
pub mod Queue
pub mod Spill
pub mod Fifo
pub mod Tagged
pub mod Drain
pub mod Order
