-- ===== src/Gateway.antt =====
-- The WhatsApp gateway, gateway/src: one socket of the Baileys library for each business, and the
-- messages between WhatsApp and the backend.
pub mod Value
pub mod Contract
pub mod Sending
pub mod InternalApi
pub mod Inbound
pub mod Upsert
pub mod AuthStore
pub mod Recovery
pub mod Lifecycle
pub mod Manager
pub mod Routes
pub mod Settings
mod Tests
