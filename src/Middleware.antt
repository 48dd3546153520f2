-- ===== src/Middleware.antt =====
-- internal/middleware: the rate limiter in front of the HTTP handlers.
pub mod RateLimit
