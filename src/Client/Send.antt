-- ===== src/Client/Send.antt =====
-- client.go, `send` and the methods that call it: a request is registered under a fresh invoke id,
-- written, and answered through its channel.
use goads.Base.{ℕ, ◌+◌, ◌%◌, ◌^◌, Bool, Option, none, some, List, [], if◌then◌else◌}
use goads.Base.Assoc.{erase, insert}
use goads.Ams.Outcome.{Outcome, done, panic, Error}
use goads.Ams.Buffer.{Buffer, new_buffer}
use goads.Ams.Read.{ReadRequest, ReadResponse}
use goads.Ams.Read
use goads.Ams.Write.{WriteRequest, WriteResponse}
use goads.Ams.Write
use goads.Ams.ReadWrite.{ReadWriteRequest, ReadWriteResponse}
use goads.Ams.ReadWrite
use goads.Ams.ReadDeviceInfo.{ReadDeviceInfoRequest, ReadDeviceInfoResponse}
use goads.Ams.ReadDeviceInfo
use goads.Ams.AddNotification.{AddNotificationRequest, AddNotificationResponse}
use goads.Ams.AddNotification
use goads.Ams.DeleteNotification.{DeleteNotificationRequest, DeleteNotificationResponse}
use goads.Ams.DeleteNotification
use goads.Ams.Packet.{
  Packet, read_response, write_response, read_write_response, read_device_info_response,
  add_notification_response, delete_notification_response,
}
use goads.Client.{Client}

-- How far `send` came: it waits on its channel, or it returned an error before that.
pub data Sent : Type 0 where
  waits : Client → List ℕ → Sent
  fails : Client → Sent
  crashes : Sent

-- `atomic.AddUint32(&c.nextInvokeID, 1)`
unfoldable pub fresh_id : Client → ℕ
fresh_id c = (c.next_invoke_id + 1) % 2 ^ 32

unfoldable pub with_id : Client → Client
unfolding fresh_id
with_id c = record c { next_invoke_id = fresh_id c }

-- The bytes and the error of an encoder on an empty buffer.
abbrev pub encoded :
    {X : Type 0} → Outcome ((X × Option Error) × Buffer) → Outcome (List ℕ × Option Error)
encoded panic = panic
encoded (done ((x, e), b)) = done (b.bytes, e)

-- The handler is registered before the bytes are written, and taken out again if that fails.
unfoldable pub on_encoded : Bool → ℕ → Client → Outcome (List ℕ × Option Error) → Sent
unfolding fresh_id with_id
on_encoded write_works channel c panic = crashes
on_encoded write_works channel c (done (bytes, some e)) = fails (with_id c)
on_encoded write_works channel c (done (bytes, none)) =
    let registered = record (with_id c) { handler = insert (fresh_id c) channel c.handler } in
    if write_works
    then waits registered bytes
    else fails (record registered { handler = erase (fresh_id c) registered.handler })

-- `send` up to its `select`: `encode` is the packet's encoder once its invoke id is set, `channel`
-- the channel that `make` returns.
unfoldable pub send : Bool → ℕ → Client → (ℕ → Outcome (List ℕ × Option Error)) → Sent
unfolding on_encoded
send write_works channel c encode = on_encoded write_works channel c (encode (fresh_id c))

-- `pkt.Header().InvokeID = id`, then `Encode`.
unfoldable pub read_as : ReadRequest → ℕ → Outcome (List ℕ × Option Error)
read_as r id = encoded (
    Read.encode_request (record r { ams_header = record r.ams_header { invoke_id = id } })
      (new_buffer []))

unfoldable pub write_as : WriteRequest → ℕ → Outcome (List ℕ × Option Error)
write_as r id = encoded (
    Write.encode_request (record r { ams_header = record r.ams_header { invoke_id = id } })
      (new_buffer []))

unfoldable pub read_write_as : ReadWriteRequest → ℕ → Outcome (List ℕ × Option Error)
read_write_as r id = encoded (
    ReadWrite.encode_request (record r { ams_header = record r.ams_header { invoke_id = id } })
      (new_buffer []))

unfoldable pub read_device_info_as : ReadDeviceInfoRequest → ℕ → Outcome (List ℕ × Option Error)
read_device_info_as r id = encoded (
    ReadDeviceInfo.encode_request (record r { ams_header = record r.ams_header { invoke_id = id } })
      (new_buffer []))

unfoldable pub add_notification_as : AddNotificationRequest → ℕ → Outcome (List ℕ × Option Error)
add_notification_as r id = encoded (
    AddNotification.encode_request
      (record r { ams_header = record r.ams_header { invoke_id = id } }) (new_buffer []))

unfoldable pub delete_notification_as :
    DeleteNotificationRequest → ℕ → Outcome (List ℕ × Option Error)
delete_notification_as r id = encoded (
    DeleteNotification.encode_request
      (record r { ams_header = record r.ams_header { invoke_id = id } }) (new_buffer []))

-- The callbacks of the client's methods: the response of the type that was asked for, or an error.
unfoldable pub accept_read : Packet → Option ReadResponse
accept_read (read_response r) = some r
accept_read _ = none

unfoldable pub accept_write : Packet → Option WriteResponse
accept_write (write_response r) = some r
accept_write _ = none

unfoldable pub accept_read_write : Packet → Option ReadWriteResponse
accept_read_write (read_write_response r) = some r
accept_read_write _ = none

unfoldable pub accept_read_device_info : Packet → Option ReadDeviceInfoResponse
accept_read_device_info (read_device_info_response r) = some r
accept_read_device_info _ = none

unfoldable pub accept_add_notification : Packet → Option AddNotificationResponse
accept_add_notification (add_notification_response r) = some r
accept_add_notification _ = none

unfoldable pub accept_delete_notification : Packet → Option DeleteNotificationResponse
accept_delete_notification (delete_notification_response r) = some r
accept_delete_notification _ = none
