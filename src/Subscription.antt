-- ===== src/Subscription.antt =====
-- Subscriptions: internal/domain/subscription.go, internal/domain/payment_provider.go,
-- internal/service/subscription_service.go and internal/repository/gormrepo/subscription.go.
pub mod Record
pub mod Service
pub mod Effective
pub mod Uniqueness
pub mod RevenueCat
pub mod PlanChange
pub mod Calls
pub mod Operations
pub mod StoreChanges
pub mod StoreEvents
pub mod Checks
pub mod Upkeep
pub mod Revival
