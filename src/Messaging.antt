-- ===== src/Messaging.antt =====
-- The events on their way from the storage to the applications: the notifiers (notifier/nats/nats.go,
-- notifier/noop/noop.go) and the watcher (client/v1/nats/nats.go).
pub mod Nats
pub mod Delivery
