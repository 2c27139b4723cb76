-- ===== src/Tests.antt =====
-- The concrete inputs at which the properties are applied, part by part.
mod Data
mod Capture
mod Persist
mod Worker
mod Guards
mod Stream
mod Webhook
mod Recovery
mod Prune
mod Operations
mod Sinks
mod Config
mod Stats
mod Monitoring
mod Emit
mod Setup
mod Open
mod Listing
mod App
