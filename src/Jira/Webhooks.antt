-- ===== src/Jira/Webhooks.antt =====
-- internal/jira/webhooks.go: the registrations of Jira's dynamic webhooks.
pub mod Jql
pub mod Requests
pub mod Manager
pub mod Resync
pub mod Refresh
