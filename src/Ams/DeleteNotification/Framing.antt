-- ===== src/Ams/DeleteNotification/Framing.antt =====
-- The lengths that `Encode` of the request to delete a notification announces.
use goads.Base.{ℕ, ◌^◌, ◌<◌, length-append, arith}
use goads.Ams.Buffer.{put_uint16, put_uint32}
use goads.Ams.Addr.{Addr}
use goads.Ams.Header.Codec.{IsAddr}
use goads.Ams.Framing.{Frames, length-tcp_wire, length-ams_wire}
use goads.Ams.DeleteNotification.{new_delete_notification_request, stamp_request}
use goads.Ams.DeleteNotification.Wire.{IsDeleteNotificationRequest, request_wire}

module _ {target sender : Addr} (t : IsAddr target) (s : IsAddr sender) where
  -- A new request to delete a notification, between two addresses and with a handle of 32 bits,
  -- once `Encode` has set its lengths, is one that its codec transfers, and its TCP header
  -- announces the bytes behind it, its AMS header the bytes behind both headers.
  pub new_delete_notification_request-Frames :
      (handle : ℕ)
      → handle < 2 ^ 32
      → let r = (stamp_request (new_delete_notification_request target sender handle)) in
        IsDeleteNotificationRequest r × Frames r.tcp_header r.ams_header (request_wire r)
  unfolding new_delete_notification_request stamp_request request_wire put_uint16 put_uint32
  new_delete_notification_request-Frames handle handle_fits =
      let r = (stamp_request (new_delete_notification_request target sender handle)) in
      (
        record {
          tcp_header = omega arith;
          ams_header = omega arith;
          notification_handle = handle_fits;
        },
        simp length-append
            (omega (arith, length-tcp_wire r.tcp_header, length-ams_wire r.ams_header t s)),
      )
