-- ===== src/Api.antt =====
-- apps/api: authentication, and the requests on endpoints, events and deliveries.
pub mod App
pub mod Auth
pub mod Endpoints
pub mod Events
pub mod Listings
pub mod Schemas
