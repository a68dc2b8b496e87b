-- ===== src/Webhooks.antt =====
-- extensions-controller/internal/webhook: the two webhooks that change objects.
pub mod PvcLabels
pub mod BucketParams
pub mod Denial
pub mod Refused
