-- ===== src/Tests.antt =====
-- Concrete runs of the handlers and of the store, and the theorems at concrete inputs.
mod Fixtures
mod Opened
mod Grants
mod Devices
mod Endpoints
mod Browser
mod Logout
mod Exchange
