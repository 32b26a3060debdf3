-- ===== src/RateLimit.antt =====
-- apps/api/src/integrations/rate-limit: the limiter object and the limiters that use it.
pub mod LimiterDo
pub mod Window
pub mod Lease
pub mod Port
pub mod OrgDo
pub mod OrgKv
pub mod Agree
pub mod KvKeys
pub mod AgreeOn
pub mod History
pub mod Tests
