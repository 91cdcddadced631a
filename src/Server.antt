-- ===== src/Server.antt =====
-- The API and signaling server, apps/server.
pub mod Schema
pub mod Messages
pub mod Channels
pub mod Redis
pub mod Registry
pub mod App
pub mod Sessions
pub mod Relay
pub mod Routes
pub mod Organizations
pub mod Machines
pub mod RateLimiter
pub mod Signature
pub mod Billing
pub mod Checkout
pub mod Login
pub mod Connect
