-- ===== src/Deployment.antt =====
-- core-runtime/src/ab_testing and core-runtime/src/deployment: how requests are split between variants of
-- a model, and how a new version takes over the traffic.
pub mod Traffic
pub mod Thresholds
pub mod Metrics
pub mod Canary
