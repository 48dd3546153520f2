-- ===== src/Poller.antt =====
-- internal/poller/poller.go: what changed in Jira, batched per chat and issue.
pub mod Changes
pub mod Pending
pub mod Send
pub mod Mentions
pub mod Cycle
pub mod Jql
