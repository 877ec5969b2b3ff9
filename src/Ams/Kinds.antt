-- ===== src/Ams/Kinds.antt =====
-- ams/read.go, ams/write.go, ams/readwrite.go, ams/readstate.go, ams/readdeviceinfo.go and
-- ams/adddelnotification.go: the requests and responses as one family of packets, each with its codec.
use goads.Base.{ℕ, ◌≡◌, List, length, Option}
use goads.Ams.Outcome.{Error}
use goads.Ams.Buffer.{Action}
use goads.Ams.Codec.{Transfers}
use goads.Ams.Read as ReadPackets
use goads.Ams.Read.Wire as ReadWire
use goads.Ams.Write as WritePackets
use goads.Ams.Write.Wire as WriteWire
use goads.Ams.ReadWrite as ReadWritePackets
use goads.Ams.ReadWrite.Wire as ReadWriteWire
use goads.Ams.ReadState as ReadStatePackets
use goads.Ams.ReadState.Wire as ReadStateWire
use goads.Ams.ReadDeviceInfo as ReadDeviceInfoPackets
use goads.Ams.ReadDeviceInfo.Wire as ReadDeviceInfoWire
use goads.Ams.AddNotification as AddNotificationPackets
use goads.Ams.AddNotification.Wire as AddNotificationWire
use goads.Ams.DeleteNotification as DeleteNotificationPackets
use goads.Ams.DeleteNotification.Wire as DeleteNotificationWire

pub data PacketKind : Type 0 where
  read_request read_response : PacketKind
  write_request write_response : PacketKind
  read_write_request read_write_response : PacketKind
  read_state_request read_state_response : PacketKind
  read_device_info_request read_device_info_response : PacketKind
  add_notification_request add_notification_response : PacketKind
  delete_notification_request delete_notification_response : PacketKind

-- A type of packet with its encoder and decoder, what it is on the wire, the fields that its encoder
-- sets before it writes, and when it fits the types of its fields. `Holds` is asked of the packet
-- that is decoded into.
pub record PacketCodec : Type 1 where
  pub Body : Type 0
  pub encode : Body → Action (Body × Option Error)
  pub decode : Body → Action (Body × Option Error)
  pub wire : Body → List ℕ
  pub stamped : Body → Body
  pub Fits : Body → Type 0
  pub Holds : Body → Type 0

abbrev pub codec : PacketKind → PacketCodec
codec read_request = record {
  Body = ReadPackets.ReadRequest;
  encode = ReadPackets.encode_request;
  decode = ReadPackets.decode_request;
  wire = λ r. ReadWire.request_wire r;
  stamped = λ r. r;
  Fits = ReadWire.IsReadRequest;
  Holds = λ _. Unit;
}
codec read_response = record {
  Body = ReadPackets.ReadResponse;
  encode = ReadPackets.encode_response;
  decode = ReadPackets.decode_response;
  wire = λ r. ReadWire.response_wire r;
  stamped = λ r. r;
  Fits = ReadWire.IsReadResponse;
  Holds = λ _. Unit;
}
codec write_request = record {
  Body = WritePackets.WriteRequest;
  encode = WritePackets.encode_request;
  decode = WritePackets.decode_request;
  wire = λ r. WriteWire.request_wire r;
  stamped = λ r. r;
  Fits = WriteWire.IsWriteRequest;
  Holds = λ _. Unit;
}
codec write_response = record {
  Body = WritePackets.WriteResponse;
  encode = WritePackets.encode_response;
  decode = WritePackets.decode_response;
  wire = λ r. WriteWire.response_wire r;
  stamped = λ r. r;
  Fits = WriteWire.IsWriteResponse;
  Holds = λ _. Unit;
}
codec read_write_request = record {
  Body = ReadWritePackets.ReadWriteRequest;
  encode = ReadWritePackets.encode_request;
  decode = ReadWritePackets.decode_request;
  wire = λ r. ReadWriteWire.request_wire r;
  stamped = λ r. r;
  Fits = ReadWriteWire.IsReadWriteRequest;
  Holds = λ _. Unit;
}
codec read_write_response = record {
  Body = ReadWritePackets.ReadWriteResponse;
  encode = ReadWritePackets.encode_response;
  decode = ReadWritePackets.decode_response;
  wire = λ r. ReadWriteWire.response_wire r;
  stamped = λ r. r;
  Fits = ReadWriteWire.IsReadWriteResponse;
  Holds = λ _. Unit;
}
codec read_state_request = record {
  Body = ReadStatePackets.ReadStateRequest;
  encode = ReadStatePackets.encode_request;
  decode = ReadStatePackets.decode_request;
  wire = λ r. ReadStateWire.request_wire r;
  stamped = λ r. r;
  Fits = ReadStateWire.IsReadStateRequest;
  Holds = λ _. Unit;
}
codec read_state_response = record {
  Body = ReadStatePackets.ReadStateResponse;
  encode = ReadStatePackets.encode_response;
  decode = ReadStatePackets.decode_response;
  wire = λ r. ReadStateWire.response_wire r;
  stamped = λ r. r;
  Fits = ReadStateWire.IsReadStateResponse;
  Holds = λ _. Unit;
}
codec read_device_info_request = record {
  Body = ReadDeviceInfoPackets.ReadDeviceInfoRequest;
  encode = ReadDeviceInfoPackets.encode_request;
  decode = ReadDeviceInfoPackets.decode_request;
  wire = λ r. ReadDeviceInfoWire.request_wire r;
  stamped = λ r. r;
  Fits = ReadDeviceInfoWire.IsReadDeviceInfoRequest;
  Holds = λ _. Unit;
}
codec read_device_info_response = record {
  Body = ReadDeviceInfoPackets.ReadDeviceInfoResponse;
  encode = ReadDeviceInfoPackets.encode_response;
  decode = ReadDeviceInfoPackets.decode_response;
  wire = λ r. ReadDeviceInfoWire.response_wire r;
  stamped = λ r. r;
  Fits = ReadDeviceInfoWire.IsReadDeviceInfoResponse;
  Holds = λ z. length z.device_name ≡ 16;
}
codec add_notification_request = record {
  Body = AddNotificationPackets.AddNotificationRequest;
  encode = AddNotificationPackets.encode_request;
  decode = AddNotificationPackets.decode_request;
  wire = λ r. AddNotificationWire.request_wire (AddNotificationPackets.stamp_request r);
  stamped = AddNotificationPackets.stamp_request;
  Fits = λ r. AddNotificationWire.IsAddNotificationRequest (AddNotificationPackets.stamp_request r);
  Holds = λ z. length z.reserved ≡ 16;
}
codec add_notification_response = record {
  Body = AddNotificationPackets.AddNotificationResponse;
  encode = AddNotificationPackets.encode_response;
  decode = AddNotificationPackets.decode_response;
  wire = λ r. AddNotificationWire.response_wire (AddNotificationPackets.stamp_response r);
  stamped = AddNotificationPackets.stamp_response;
  Fits =
      λ r. AddNotificationWire.IsAddNotificationResponse (AddNotificationPackets.stamp_response r);
  Holds = λ _. Unit;
}
codec delete_notification_request = record {
  Body = DeleteNotificationPackets.DeleteNotificationRequest;
  encode = DeleteNotificationPackets.encode_request;
  decode = DeleteNotificationPackets.decode_request;
  wire = λ r. DeleteNotificationWire.request_wire (DeleteNotificationPackets.stamp_request r);
  stamped = DeleteNotificationPackets.stamp_request;
  Fits = λ r.
      DeleteNotificationWire.IsDeleteNotificationRequest
        (DeleteNotificationPackets.stamp_request r);
  Holds = λ _. Unit;
}
codec delete_notification_response = record {
  Body = DeleteNotificationPackets.DeleteNotificationResponse;
  encode = DeleteNotificationPackets.encode_response;
  decode = DeleteNotificationPackets.decode_response;
  wire = λ r. DeleteNotificationWire.response_wire (DeleteNotificationPackets.stamp_response r);
  stamped = DeleteNotificationPackets.stamp_response;
  Fits = λ r.
      DeleteNotificationWire.IsDeleteNotificationResponse
        (DeleteNotificationPackets.stamp_response r);
  Holds = λ _. Unit;
}

-- The codecs of the fourteen requests and responses: a packet that fits the types of its fields, its
-- length fields those of its data, once `Encode` has set the fields that it sets (for the packets
-- that add and delete notifications the lengths, the command id and the response's flag), is encoded
-- as its wire format behind whatever the buffer holds, and decoded from it, whatever follows and
-- whatever the receiver held; the reserved bytes of a request to add a notification and the device
-- name are 16 bytes, in the receiver too.
pub codec-Transfers :
    (k : PacketKind) (z r : (codec k).Body) (b rest : List ℕ)
    → (codec k).Fits r
    → (codec k).Holds z
    → Transfers
        (codec k).encode
        (codec k).decode
        ((codec k).wire r)
        z
        r
        ((codec k).stamped r)
        b
        rest
codec-Transfers read_request z r b rest v h = ReadWire.read_request-Transfers z r b rest v
codec-Transfers read_response z r b rest v h = ReadWire.read_response-Transfers z r b rest v
codec-Transfers write_request z r b rest v h = WriteWire.write_request-Transfers z r b rest v
codec-Transfers write_response z r b rest v h = WriteWire.write_response-Transfers z r b rest v
codec-Transfers read_write_request z r b rest v h =
    ReadWriteWire.read_write_request-Transfers z r b rest v
codec-Transfers read_write_response z r b rest v h =
    ReadWriteWire.read_write_response-Transfers z r b rest v
codec-Transfers read_state_request z r b rest v h =
    ReadStateWire.read_state_request-Transfers z r b rest v
codec-Transfers read_state_response z r b rest v h =
    ReadStateWire.read_state_response-Transfers z r b rest v
codec-Transfers read_device_info_request z r b rest v h =
    ReadDeviceInfoWire.read_device_info_request-Transfers z r b rest v
codec-Transfers read_device_info_response z r b rest v h =
    ReadDeviceInfoWire.read_device_info_response-Transfers z r b rest v h
codec-Transfers add_notification_request z r b rest v h =
    AddNotificationWire.add_notification_request-Transfers z r b rest v h
codec-Transfers add_notification_response z r b rest v h =
    AddNotificationWire.add_notification_response-Transfers z r b rest v
codec-Transfers delete_notification_request z r b rest v h =
    DeleteNotificationWire.delete_notification_request-Transfers z r b rest v
codec-Transfers delete_notification_response z r b rest v h =
    DeleteNotificationWire.delete_notification_response-Transfers z r b rest v
