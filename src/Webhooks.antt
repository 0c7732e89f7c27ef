-- ===== src/Webhooks.antt =====
-- Webhooks (src/webhooks.ts, src/subscriptions.ts and scripts/webhook-delivery.ts).
pub mod Address
pub mod Crypto
pub mod Deliveries
