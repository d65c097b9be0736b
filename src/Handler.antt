-- ===== src/Handler.antt =====
-- The package echonet_lite/handler.
pub mod LocalObjects
pub mod Identifiers
pub mod Devices
pub mod Session
pub mod Groups
pub mod Aliases
pub mod Locations
pub mod History
pub mod Node
pub mod Receive
pub mod Instances
pub mod Updates
pub mod Operations
pub mod Core
pub mod Registration
pub mod Data
pub mod Helpers
pub mod Notifications
