-- ===== src/Identity.antt =====
-- internal/identity: the leasing of Jira access tokens.
pub mod Lease
