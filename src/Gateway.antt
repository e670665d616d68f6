-- ===== src/Gateway.antt =====
-- crates/ar-gateway: webhook intake, CI dispatch and the chat poller.
pub mod RateLimit
pub mod Dedup
pub mod Cursors
pub mod Hmac
pub mod Metrics
pub mod ReviewMetrics
pub mod Webhook
pub mod CiReview
pub mod Poller
pub mod Startup
