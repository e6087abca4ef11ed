-- ===== src/Client/Connections/Closing.antt =====
-- What Close of client/core/device.go leaves of the connections.
use device.Common.Eq.{string_eq}
