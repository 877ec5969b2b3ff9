-- ===== src/Client/Methods.antt =====
-- client.go: the methods Read, Write, ReadWrite, ReadDeviceInfo, AddDeviceNotification and
-- DeleteDeviceNotification as a whole: a request is sent, packets are received until its channel has
-- one, and that is the response of the type that was asked for, or an error. The device is a
-- parameter: what it does with the bytes that are written to it, those that `receive` writes too, and the
-- packets that come then.
pub mod Passing
pub mod Arriving
pub mod Packets
pub mod Replies
use goads.Base.{
  ℕ, zero, suc, take, drop, ◌+◌, Bool, false, Option, none, some, List, [], ◌∷◌, ◌++◌, ◌==◌,
  if◌then◌else◌,
}
use goads.Ams.Outcome.{Outcome, Error}
use goads.Ams.Packet.{Packet}
use goads.Ams.Read.{ReadRequest, ReadResponse}
use goads.Ams.Write.{WriteRequest, WriteResponse}
use goads.Ams.ReadWrite.{ReadWriteRequest, ReadWriteResponse}
use goads.Ams.ReadDeviceInfo.{ReadDeviceInfoRequest, ReadDeviceInfoResponse}
use goads.Ams.AddNotification.{AddNotificationRequest, AddNotificationResponse}
use goads.Ams.DeleteNotification.{DeleteNotificationRequest, DeleteNotificationResponse}
use goads.Client.{
  Client, Choice, Effect, deliver, call_back, send_bytes, Turn, continues, returns, crashes, turn,
}
use goads.Client.Send
use goads.Client.Send.{
  Sent, waits, fails, send, read_as, write_as, read_write_as, read_device_info_as,
  add_notification_as, delete_notification_as, accept_read, accept_write, accept_read_write,
  accept_read_device_info, accept_add_notification, accept_delete_notification,
}
use goads.Link.{Reply, ok, failed, crashed}

pub data Method : Type 0 where
  read write read_write read_device_info add_notification delete_notification : Method

abbrev pub Request : Method → Type 0
Request read = ReadRequest
Request write = WriteRequest
Request read_write = ReadWriteRequest
Request read_device_info = ReadDeviceInfoRequest
Request add_notification = AddNotificationRequest
Request delete_notification = DeleteNotificationRequest

abbrev pub Response : Method → Type 0
Response read = ReadResponse
Response write = WriteResponse
Response read_write = ReadWriteResponse
Response read_device_info = ReadDeviceInfoResponse
Response add_notification = AddNotificationResponse
Response delete_notification = DeleteNotificationResponse

abbrev pub encode_with_id : (m : Method) → Request m → ℕ → Outcome (List ℕ × Option Error)
encode_with_id read = read_as
encode_with_id write = write_as
encode_with_id read_write = read_write_as
encode_with_id read_device_info = read_device_info_as
encode_with_id add_notification = add_notification_as
encode_with_id delete_notification = delete_notification_as

-- The callback that a method hands to `send`.
abbrev pub accept : (m : Method) → Packet → Option (Response m)
accept read = accept_read
accept write = accept_write
accept read_write = accept_read_write
accept read_device_info = accept_read_device_info
accept add_notification = accept_add_notification
accept delete_notification = accept_delete_notification

-- A client and its connection: the channels made so far, the packets that have come and are not
-- read, whether the loop of `receive` still runs, and the device.
pub record Connection (D : Type 0) : Type 0 where
  pub client : Client
  pub made : ℕ
  pub inbox : List (List ℕ)
  pub running : Bool
  pub device : D

-- What is delivered to a channel.
unfoldable pub delivered_to : ℕ → List Effect → Option Packet
delivered_to h [] = none
delivered_to h (deliver j p ∷ es) = let rest = delivered_to h es in if j == h then some p else rest
delivered_to h (call_back r ∷ es) = delivered_to h es
delivered_to h (send_bytes b ∷ es) = delivered_to h es

-- `conn.Read` into the buffer of 1500 bytes: what is longer is left for the next read.
abbrev pub left_over : List ℕ → List (List ℕ) → List (List ℕ)
left_over [] rest = rest
left_over (b ∷ bytes) rest = (b ∷ bytes) ∷ rest

unfoldable pub read_next : List (List ℕ) → Option (List ℕ × List (List ℕ))
read_next [] = none
read_next (bytes ∷ rest) = some (take 1500 bytes, left_over (drop 1500 bytes) rest)

-- `cb(r)`, and what the method returns.
unfoldable pub accepted :
    {D : Type 0} (m : Method) → Reply Packet × Connection D → Reply (Response m) × Connection D
accepted m (ok p, w) = elim (accept m p) [ none ↦ (failed, w) | some r ↦ (ok r, w) ]
accepted m (failed, w) = (failed, w)
accepted m (crashed, w) = (crashed, w)

-- The device is not part of the client: what it sends back for the bytes that are written to it.
module _ {D : Type 0} (device : List ℕ → D → List (List ℕ) × D) where
  -- `conn.Write`: what the device sends back comes behind what is there.
  abbrev pub give_device : List ℕ → Connection D → Connection D
  give_device bytes w =
      let (answers, d) = device bytes w.device in
      record w { inbox = w.inbox ++ answers; device = d }

  -- What a turn wrote goes to the device.
  unfoldable pub fed : List Effect → Connection D → Connection D
  fed [] w = w
  fed (send_bytes b ∷ es) w = fed es (give_device b w)
  fed (deliver j p ∷ es) w = fed es w
  fed (call_back r ∷ es) w = fed es w

  -- What follows a turn of `receive`, where `k` is the rest of the loop: the call gets the packet that
  -- its channel was given.
  unfoldable pub on_turn :
      (Connection D → Reply Packet × Connection D)
      → ℕ
      → Connection D
      → Turn
      → Reply Packet × Connection D
  unfolding fed delivered_to
  on_turn k h w (continues c es) =
      let w' = fed es (record w { client = c }) in
      elim (delivered_to h es) [ none ↦ k w' | some p ↦ (ok p, w') ]
  on_turn k h w (returns c es) =
      let w' = fed es (record w { client = c; running = false }) in (failed, w')
  on_turn k h w crashes = (crashed, w)

  -- What follows a read.
  unfoldable pub on_read :
      Choice
      → (Connection D → Reply Packet × Connection D)
      → ℕ
      → Connection D
      → Option (List ℕ × List (List ℕ))
      → Reply Packet × Connection D
  unfolding on_turn
  on_read choice k h w none = (failed, w)
  on_read choice k h w (some (bytes, rest)) =
      on_turn k h (record w { inbox = rest }) (turn choice w.client bytes)

  -- Packets are read one by one until the channel has one. The call times out where none is left, and
  -- where the reads are done that are made before its time is up.
  unfoldable pub await : Choice → ℕ → ℕ → Connection D → Reply Packet × Connection D
  unfolding on_read read_next
  await choice h zero w = (failed, w)
  await choice h (suc reads) w = on_read choice (await choice h reads) h w (read_next w.inbox)

  -- Behind `send`: the device gets the bytes.
  unfoldable pub on_sent :
      Choice → ℕ → (m : Method) → ℕ → Connection D → Sent → Reply (Response m) × Connection D
  unfolding accepted await
  on_sent choice reads m h w (waits c bytes) =
      let w' = give_device bytes (record w { client = c }) in
      if w.running then accepted m (await choice h reads w') else (failed, w')
  on_sent choice reads m h w (fails c) = (failed, record w { client = c })
  on_sent choice reads m h w Send.crashes = (crashed, w)

  -- A method on a request, with the reads that are made before its time is up. Its channel is a new one.
  unfoldable pub call_method :
      Choice → ℕ → (m : Method) → Request m → Connection D → Reply (Response m) × Connection D
  unfolding on_sent
  call_method choice reads m x w =
      on_sent choice reads m w.made (record w { made = w.made + 1 })
        (send choice.write_works w.made w.client (encode_with_id m x))
