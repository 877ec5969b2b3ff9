-- ===== src/Ams/ReadState/Framing.antt =====
-- The lengths that the constructors of the ReadState packets announce.
use goads.Base.{ℕ, ◌^◌, ◌<◌, length-append, arith}
use goads.Ams.Buffer.{put_uint16, put_uint32}
use goads.Ams.Addr.{Addr}
use goads.Ams.Header.Codec.{IsAddr}
use goads.Ams.Framing.{Frames, length-tcp_wire, length-ams_wire}
use goads.Ams.ReadState.{new_read_state_request, new_read_state_response}
use goads.Ams.ReadState.Wire.{IsReadStateRequest, request_wire, IsReadStateResponse, response_wire}

module _ {target sender : Addr} (t : IsAddr target) (s : IsAddr sender) where
  -- A new ReadState request between two addresses is one that its codec transfers, and its TCP
  -- header announces the bytes behind it, its AMS header the bytes behind both headers.
  pub new_read_state_request-Frames :
      let r = (new_read_state_request target sender) in
      IsReadStateRequest r × Frames r.tcp_header r.ams_header (request_wire r)
  unfolding new_read_state_request request_wire put_uint16 put_uint32
  new_read_state_request-Frames =
      let r = (new_read_state_request target sender) in
      (
        record { tcp_header = omega arith; ams_header = omega arith },
        simp length-append
            (omega (arith, length-tcp_wire r.tcp_header, length-ams_wire r.ams_header t s)),
      )

  -- A new ReadState response between two addresses, its numbers of the width of their fields, is
  -- one that its codec transfers, and its TCP header announces the bytes behind it, its AMS
  -- header the bytes behind both headers.
  pub new_read_state_response-Frames :
      (result ads_state device_state : ℕ)
      → result < 2 ^ 32
      → ads_state < 2 ^ 16
      → device_state < 2 ^ 16
      → let r = (new_read_state_response target sender result ads_state device_state) in
        IsReadStateResponse r × Frames r.tcp_header r.ams_header (response_wire r)
  unfolding new_read_state_response response_wire put_uint16 put_uint32
  new_read_state_response-Frames result ads_state device_state result_fits ads_state_fits
        device_state_fits =
      let r = (new_read_state_response target sender result ads_state device_state) in
      (
        record {
          tcp_header = omega arith;
          ams_header = omega arith;
          result = result_fits;
          ads_state = ads_state_fits;
          device_state = device_state_fits;
        },
        simp length-append
            (omega (arith, length-tcp_wire r.tcp_header, length-ams_wire r.ams_header t s)),
      )

  -- A new ReadState request, and a new ReadState response with numbers of the width of their fields,
  -- between two addresses, are ones that their codecs transfer, and their TCP headers announce the
  -- bytes behind them, their AMS headers the bytes behind both headers.
  pub new_read_state-Frames :
      (result ads_state device_state : ℕ)
      → result < 2 ^ 32
      → ads_state < 2 ^ 16
      → device_state < 2 ^ 16
      → let q = new_read_state_request target sender in
        let r = new_read_state_response target sender result ads_state device_state in
        (IsReadStateRequest q × Frames q.tcp_header q.ams_header (request_wire q))
        × (IsReadStateResponse r × Frames r.tcp_header r.ams_header (response_wire r))
  new_read_state-Frames result ads_state device_state a b c = (
    new_read_state_request-Frames,
    new_read_state_response-Frames result ads_state device_state a b c,
  )
