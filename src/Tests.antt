-- ===== src/Tests.antt =====
-- Runs of the modelled code on concrete inputs.
pub mod Guards
pub mod Texts
pub mod Polling
pub mod Batching
pub mod Calendars
pub mod Hooks
pub mod Tokens
pub mod Secrets
pub mod Settings
pub mod Webhooks
pub mod Reports
