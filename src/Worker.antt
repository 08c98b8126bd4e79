-- ===== src/Worker.antt =====
-- src/worker.c: what a worker does with the bytes of a client, in and out.
pub mod Input
pub mod Output
