-- ===== src/Ams/AddNotification/Framing.antt =====
-- The lengths that `Encode` of the request to add a notification announces.
use goads.Base.{ℕ, ◌^◌, ◌<◌, refl, length-append, arith}
use goads.Ams.Buffer.{put_uint16, put_uint32}
use goads.Ams.Addr.{Addr}
use goads.Ams.Header.Codec.{IsAddr}
use goads.Ams.Framing.{Frames, length-tcp_wire, length-ams_wire}
use goads.Ams.AddNotification.{new_add_notification_request, stamp_request}
use goads.Ams.AddNotification.Wire.{IsAddNotificationRequest, request_wire}

module _ {target sender : Addr} (t : IsAddr target) (s : IsAddr sender) where
  -- A new request to add a notification, between two addresses and with numbers of 32 bits, once
  -- `Encode` has set its lengths, is one that its codec transfers, and its TCP header announces
  -- the bytes behind it, its AMS header the bytes behind both headers.
  pub new_add_notification_request-Frames :
      (group offset size mode delay cycle : ℕ)
      → group < 2 ^ 32
      → offset < 2 ^ 32
      → size < 2 ^ 32
      → mode < 2 ^ 32
      → delay < 2 ^ 32
      → cycle < 2 ^ 32
      → let r =
          (stamp_request
            (new_add_notification_request target sender group offset size mode delay cycle)) in
        IsAddNotificationRequest r × Frames r.tcp_header r.ams_header (request_wire r)
  unfolding new_add_notification_request stamp_request request_wire put_uint16 put_uint32
  new_add_notification_request-Frames group offset size mode delay cycle group_fits offset_fits
        size_fits mode_fits delay_fits cycle_fits =
      let r =
        (stamp_request
          (new_add_notification_request target sender group offset size mode delay cycle)) in
      (
        record {
          tcp_header = omega arith;
          ams_header = omega arith;
          index_group = group_fits;
          index_off = offset_fits;
          length_fits = size_fits;
          trans_mode = mode_fits;
          max_delay = delay_fits;
          cycle_time = cycle_fits;
          reserved = refl;
        },
        simp length-append
            (omega (arith, length-tcp_wire r.tcp_header, length-ams_wire r.ams_header t s)),
      )
