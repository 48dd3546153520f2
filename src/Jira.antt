-- ===== src/Jira.antt =====
-- internal/jira/models.go: the parts of Jira's answers that the bot reads.
pub mod Adf
pub mod Models
pub mod Paging
pub mod Webhooks
