-- ===== src/Client/Methods/Packets.antt =====
-- What a method writes, and the packet that answers it.
use goads.Base.{ℕ, ◌≡◌, refl, none, some, List, []}
use goads.Ams.Outcome.{done}
use goads.Ams.Packet.{
  Packet, read_response, write_response, read_write_response, read_device_info_response,
  add_notification_response, delete_notification_response,
}
use goads.Ams.Packet.Wire.{ams_of, packet_wire, IsPacket}
use goads.Ams.Read.Wire as ReadWire
use goads.Ams.Write.Wire as WriteWire
use goads.Ams.ReadWrite.Wire as ReadWriteWire
use goads.Ams.ReadDeviceInfo.Wire as ReadDeviceInfoWire
use goads.Ams.AddNotification.Wire as AddNotificationWire
use goads.Ams.AddNotification as AddNotificationPackets
use goads.Ams.DeleteNotification.Wire as DeleteNotificationWire
use goads.Ams.DeleteNotification as DeleteNotificationPackets
use goads.Client.{Client, Choice, turn, forward, dispatch}
use goads.Client.Receive.{turn-packet}
use goads.Client.Send.{
  encoded, read_as, write_as, read_write_as, read_device_info_as, add_notification_as,
  delete_notification_as, accept_read, accept_write, accept_read_write, accept_read_device_info,
  accept_add_notification, accept_delete_notification,
}
use goads.Client.Methods.{Method, Request, Response, encode_with_id, accept}

-- The packet that gives a method its response.
abbrev pub packet_of : (m : Method) → Response m → Packet
packet_of Method.read = read_response
packet_of Method.write = write_response
packet_of Method.read_write = read_write_response
packet_of Method.read_device_info = read_device_info_response
packet_of Method.add_notification = add_notification_response
packet_of Method.delete_notification = delete_notification_response

-- A request as it is sent under an invoke id, and its bytes.
abbrev pub sent_as : (m : Method) → Request m → ℕ → Request m
sent_as Method.read r id = record r { ams_header = record r.ams_header { invoke_id = id } }
sent_as Method.write r id = record r { ams_header = record r.ams_header { invoke_id = id } }
sent_as Method.read_write r id = record r { ams_header = record r.ams_header { invoke_id = id } }
sent_as Method.read_device_info r id = record r {
  ams_header = record r.ams_header { invoke_id = id };
}
sent_as Method.add_notification r id =
    AddNotificationPackets.stamp_request
      (record r { ams_header = record r.ams_header { invoke_id = id } })
sent_as Method.delete_notification r id =
    DeleteNotificationPackets.stamp_request
      (record r { ams_header = record r.ams_header { invoke_id = id } })

abbrev pub IsRequest : (m : Method) → Request m → Type 0
IsRequest Method.read = ReadWire.IsReadRequest
IsRequest Method.write = WriteWire.IsWriteRequest
IsRequest Method.read_write = ReadWriteWire.IsReadWriteRequest
IsRequest Method.read_device_info = ReadDeviceInfoWire.IsReadDeviceInfoRequest
IsRequest Method.add_notification = AddNotificationWire.IsAddNotificationRequest
IsRequest Method.delete_notification = DeleteNotificationWire.IsDeleteNotificationRequest

abbrev pub wire_of : (m : Method) → Request m → List ℕ
wire_of Method.read = ReadWire.request_wire
wire_of Method.write = WriteWire.request_wire
wire_of Method.read_write = ReadWriteWire.request_wire
wire_of Method.read_device_info = ReadDeviceInfoWire.request_wire
wire_of Method.add_notification = AddNotificationWire.request_wire
wire_of Method.delete_notification = DeleteNotificationWire.request_wire

pub encodes :
    (m : Method) (x : Request m) (id : ℕ)
    → IsRequest m (sent_as m x id)
    → encode_with_id m x id ≡ done (wire_of m (sent_as m x id), none)
unfolding read_as write_as read_write_as read_device_info_as add_notification_as
    delete_notification_as
encodes Method.read r id v =
    rw
      (
        (ReadWire.read_request-Transfers
            (record r { ams_header = record r.ams_header { invoke_id = id } })
            (record r { ams_header = record r.ams_header { invoke_id = id } }) [] [] v).0,
        encoded,
      )
      refl
encodes Method.write r id v =
    rw
      (
        (WriteWire.write_request-Transfers
            (record r { ams_header = record r.ams_header { invoke_id = id } })
            (record r { ams_header = record r.ams_header { invoke_id = id } }) [] [] v).0,
        encoded,
      )
      refl
encodes Method.read_write r id v =
    rw
      (
        (ReadWriteWire.read_write_request-Transfers
            (record r { ams_header = record r.ams_header { invoke_id = id } })
            (record r { ams_header = record r.ams_header { invoke_id = id } }) [] [] v).0,
        encoded,
      )
      refl
encodes Method.read_device_info r id v =
    rw
      (
        (ReadDeviceInfoWire.read_device_info_request-Transfers
            (record r { ams_header = record r.ams_header { invoke_id = id } })
            (record r { ams_header = record r.ams_header { invoke_id = id } }) [] [] v).0,
        encoded,
      )
      refl
encodes Method.add_notification r id v =
    rw
      (
        (AddNotificationWire.add_notification_request-Transfers
            (AddNotificationPackets.stamp_request
              (record r { ams_header = record r.ams_header { invoke_id = id } }))
            (record r { ams_header = record r.ams_header { invoke_id = id } }) [] [] v
            v.reserved).0,
        encoded,
      )
      refl
encodes Method.delete_notification r id v =
    rw
      (
        (DeleteNotificationWire.delete_notification_request-Transfers
            (record r { ams_header = record r.ams_header { invoke_id = id } })
            (record r { ams_header = record r.ams_header { invoke_id = id } }) [] [] v).0,
        encoded,
      )
      refl

pub turn_answer :
    (choice : Choice) (m : Method) (c : Client) (y : Response m)
    → IsPacket (packet_of m y)
    → turn choice c (packet_wire (packet_of m y))
      ≡ forward choice c (ams_of (packet_of m y)).invoke_id (packet_of m y)
unfolding dispatch
turn_answer choice Method.read c y v = turn-packet choice c (read_response y) v
turn_answer choice Method.write c y v = turn-packet choice c (write_response y) v
turn_answer choice Method.read_write c y v = turn-packet choice c (read_write_response y) v
turn_answer choice Method.read_device_info c y v =
    turn-packet choice c (read_device_info_response y) v
turn_answer choice Method.add_notification c y v =
    turn-packet choice c (add_notification_response y) v
turn_answer choice Method.delete_notification c y v =
    turn-packet choice c (delete_notification_response y) v

pub accepts : (m : Method) (y : Response m) → accept m (packet_of m y) ≡ some y
unfolding accept_read accept_write accept_read_write accept_read_device_info accept_add_notification
    accept_delete_notification
accepts Method.read y = refl
accepts Method.write y = refl
accepts Method.read_write y = refl
accepts Method.read_device_info y = refl
accepts Method.add_notification y = refl
accepts Method.delete_notification y = refl
