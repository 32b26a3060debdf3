-- ===== src/Auth.antt =====
-- apps/api/src/features/auth: the tokens of a session, and the cache that holds revocations.
mod Cache
mod Tokens
mod Denylist
mod Rotation
mod Tests
