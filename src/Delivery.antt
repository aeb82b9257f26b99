-- ===== src/Delivery.antt =====
-- The HTTP side: requests, bearer authentication, throttling and the controllers of
-- src/fastapi_template/core/*/delivery and src/fastapi_template/foundation/delivery/controller.py.
pub mod Requests
pub mod Bearer
pub mod Controllers
pub mod Replies
pub mod Lookups
pub mod Throttling
pub mod Traces
pub mod Reachable
pub mod Identity
pub mod Stores
pub mod Websocket
pub mod Assembly
