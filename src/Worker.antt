-- ===== src/Worker.antt =====
-- apps/worker/src: the job queue, and the process that works it off.
pub mod Queue
pub mod Processor
mod Tests
