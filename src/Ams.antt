-- ===== src/Ams.antt =====
-- Package `ams`: the packets of the AMS protocol and the buffer that encodes them.
pub mod Outcome
pub mod Buffer
pub mod Addr
pub mod Header
pub mod Constants
pub mod Codec
pub mod Read
pub mod Write
pub mod ReadWrite
pub mod ReadState
pub mod ReadDeviceInfo
pub mod AddNotification
pub mod Notification
pub mod Framing
pub mod Packet
pub mod DeleteNotification
pub mod Kinds
pub mod Reports
pub mod Requests
