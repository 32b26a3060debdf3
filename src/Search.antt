-- ===== src/Search.antt =====
-- apps/api/src/features/search: what bounds a query.
mod Tsquery
mod Bounded
mod Tests
