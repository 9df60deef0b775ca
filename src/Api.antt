-- ===== src/Api.antt =====
-- api/routes: the routes over the modelled tables.
pub mod Events
pub mod Query
pub mod Dlq
pub mod Cursor
pub mod Deliveries
pub mod Endpoints
pub mod Stats
pub mod Errors
pub mod Audit
