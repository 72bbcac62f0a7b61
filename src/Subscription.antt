-- ===== src/Subscription.antt =====
-- Package subscription (subscription/*.go): the sources of the proxies.
pub mod Store
pub mod Reconcile
