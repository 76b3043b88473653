-- ===== src/Reservations.antt =====
-- aggregator_proxy/routers/reservations.py: the reservation endpoints and their background tasks.
pub mod Errors
pub mod Refresh
pub mod Queries
pub mod Tasks
pub mod Endpoints
mod Tests
