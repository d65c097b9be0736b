-- ===== src/Lib.antt =====
-- A verification library for the core of echonet-list: the ECHONET Lite message formats of
-- echonet_lite and the in-memory state of echonet_lite/handler.
--
-- The program reads packets (`ParseECHONETLiteMessage`), hands them to the `Session`, which matches
-- answers to requests by transaction id, and keeps what it learns in the `Devices` store. Beside the
-- store stand the groups, aliases, location settings and the history of the devices. The objects
-- that the program itself offers are a `DeviceProperties` map.
--
-- Which file models which part:
--   * EchonetLite/Bytes: echonet_lite/utils/utils.go (`Uint32ToBytes`, `BytesToUint32`, ...).
--   * EchonetLite/Object: echonet_lite/EOJ.go. EchonetLite/Property: echonet_lite/Property.go.
--   * EchonetLite/PropertyMap: echonet_lite/PropertyMap.go (`Encode`, `DecodePropertyMap`).
--   * EchonetLite/Esv and EchonetLite/Message: echonet_lite/echonet_lite.go.
--   * EchonetLite/NodeProfile: echonet_lite/node_profile.go.
--   * EchonetLite/Descriptions: `NumberDesc` and `StringDesc` of echonet_lite/PropertyDesc.go.
--   * Handler/LocalObjects, Handler/Devices: echonet_lite/handler/Devices.go. The first has
--     `DeviceProperties.Get`, `Set`, `GetProperties`, `SetProperties`, `FindEOJ` and, in its child Profile,
--     `UpdateProfileObjectProperties`; the second has
--     `SetOffline`, `RegisterProperties`, `GetProperty`, `Filter`, `RemoveDevice`, and in its child
--     Reachable a step relation of their calls, whose events Events counts.
--   * Handler/Identifiers: `EOJ.Specifier`, `IPAndEOJ.Key` and echonet_lite/handler/Helpers.go.
--   * Handler/Session: echonet_lite/handler/Session.go (`MainLoop`, `waitForResponseWithRetry`,
--     `StartGetPropertiesWithRetry`, `updateFailedEPCs`, `SetProperties`).
--   * Handler/Node: the state that the handlers share, what they send through Session.go, and the
--     callbacks of the Get requests. Handler/Core: echonet_lite/handler/handler_core.go.
--   * Handler/Receive: `onReceiveMessage` of echonet_lite/handler/handler_communication.go. Its child
--     Delivery follows a Get request from one node over the wire to the callback of its answer.
--   * Handler/Notifications: `onInfMessage`; Handler/Registration: `RegisterProperties` of
--     handler_data_management.go with `ProcessPropertyUpdateHooks`; Handler/Instances:
--     `onInstanceList`, `processInstanceListForOfflineRecovery`, `migrateDevicesFromOldIP` and the
--     listings of Devices.go; Handler/Updates: the table `activeUpdates`.
--   * Handler/Data: `AliasSet`, `AliasGet`, `AliasDelete` and `ValidateEPCsInPropertyMap` of
--     handler_data_management.go, with the id strings of Devices.go.
--   * Handler/Helpers: `ParseEPCString`, `ParseHexString` and `ParseDeviceIdentifier` of Helpers.go, for
--     ASCII texts.
--   * Handler/Operations: echonet_lite/handler/handler_operation_tracker.go.
--   * Handler/Groups, Handler/Aliases, Handler/Locations, Handler/History: the files DeviceGroups.go,
--     DeviceAliases.go, LocationSettings.go and DeviceHistory.go of echonet_lite/handler.
--   * Base: the shared helpers. Tests: the theorems at concrete inputs.
--
-- State and results. A struct is a record and a method is a function from the old state to the new
-- one; a method that holds a mutex is one step. A Go map is an association list, whose order stands
-- for the order of one `range`. A Go string is the list of its bytes. A call that can fail or panic
-- returns a `Result`: a value, an error or a panic. A channel of events is the list of what was sent
-- and the room left in its buffer. The waits are runs over the events that a `select` receives.
--
-- Bounds. Machine integers are natural numbers with the wrap-around written out; where a value comes
-- from bytes the theorems assume that they are below 256, and object codes below 2 ^ 24. No function
-- has fuel: the loops of the parser run on the count byte and all others on their lists. Times are
-- numbers that the caller passes.
--
-- Not modelled: sockets, goroutine scheduling, clocks, logging and the JSON files; the facade
-- ECHONETLiteHandler.go, `UpdateProperties`, the broadcast requests and the jitter of the delays; the
-- timeout event on `TimeoutCh`; the tables of property descriptions, with `PropertyDesc` itself; the
-- server, the client, the console and the web interface.
-- Parameters are: `net.ParseIP`, which addresses are the node's own, which packets the connection
-- takes, the text `EDTString` of a property, and what a callback returns to the dispatch.
pub mod Base
pub mod EchonetLite
pub mod Handler
mod Tests
