-- ===== src/Tests.antt =====
-- Concrete inputs: each theorem of the library that has hypotheses, at a value that meets them.
mod Wires
mod Relay
mod Handlers
mod Pure
mod Billing
mod Loops
mod Login
mod Audio
mod Floats
mod Delivery
mod Urls
mod Media
mod Service
