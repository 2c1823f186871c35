-- ===== src/Monitoring.antt =====
-- The heartbeats and the alerts: backend/kairos/core/heartbeat.py, the staleness functions of
-- backend/kairos/waitlist/services.py, backend/kairos/bookings/tasks.py and
-- backend/kairos/core/schema_assertion.py, and backend/kairos/core/alerting.py.
pub mod Heartbeat
pub mod Alerts
pub mod Edges
pub mod Delivery
