-- ===== src/Web.antt =====
-- The server side of web/: the bridge to the Python backend, web/libs/fastapi.ts, and the route
-- handlers in web/app/api. `Http` has what they exchange, `Bridge` the calls of the backend,
-- `Proxy` the forwarding of a request, `Routes` the routes that forward, `Keys` those for API keys,
-- `Jobs` those that submit backtests, `Serves` what these answer, `Client` the client of the routes and two small routes.
pub mod Http
pub mod Bridge
pub mod Proxy
pub mod Routes
mod Attempts
mod Forwarded
mod Gate
pub mod Keys
pub mod Client
pub mod Jobs
pub mod Serves
pub mod Tests
