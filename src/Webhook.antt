-- ===== src/Webhook.antt =====
-- internal/webhook: what Jira posts, how a post is accepted, and who is told.
pub mod Models
pub mod Ingress
pub mod Mentions
pub mod Delivery
