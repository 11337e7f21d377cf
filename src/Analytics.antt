-- ===== src/Analytics.antt =====
-- services/analytics-service-py/src: the service that stores events about queries.
pub mod Row
pub mod Consumer
