-- ===== src/NotifyDedup.antt =====
-- internal/notifydedup/dedup.go: the guard against sending one notification twice.
-- The mutex makes each call one step. A clock reading is an argument; `Allow` reads it twice.
pub mod Key
pub mod Guard
