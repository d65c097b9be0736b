-- ===== src/EchonetLite.antt =====
-- The package echonet_lite: byte strings, objects, properties and messages.
pub mod Bytes
pub mod Object
pub mod Property
pub mod PropertyMap
pub mod Esv
pub mod Message
pub mod NodeProfile
pub mod Descriptions
