-- ===== src/Dispatch.antt =====
-- apps/api/src/features/sources/dispatch.ts: the jobs of one request on their way to the queue.
mod Send
mod Rollback
mod Tests
