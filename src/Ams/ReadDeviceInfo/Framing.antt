-- ===== src/Ams/ReadDeviceInfo/Framing.antt =====
-- The lengths that the constructors of the ReadDeviceInfo packets announce.
use goads.Base.{ℕ, ◌^◌, ◌<◌, List, length-append, replicate, arith}
use goads.Ams.Buffer.{put_uint16, put_uint32}
use goads.Ams.Addr.{Addr}
use goads.Ams.Header.Codec.{IsAddr}
use goads.Ams.Framing.{Frames, length-copy, length-tcp_wire, length-ams_wire}
use goads.Ams.ReadDeviceInfo.{new_read_device_info_request, new_read_device_info_response}
use goads.Ams.ReadDeviceInfo.Wire.{
  IsReadDeviceInfoRequest, request_wire, IsReadDeviceInfoResponse, response_wire,
}

module _ {target sender : Addr} (t : IsAddr target) (s : IsAddr sender) where
  -- A new ReadDeviceInfo request between two addresses is one that its codec transfers, and its
  -- TCP header announces the bytes behind it, its AMS header the bytes behind both headers.
  pub new_read_device_info_request-Frames :
      let r = (new_read_device_info_request target sender) in
      IsReadDeviceInfoRequest r × Frames r.tcp_header r.ams_header (request_wire r)
  unfolding new_read_device_info_request request_wire put_uint16 put_uint32
  new_read_device_info_request-Frames =
      let r = (new_read_device_info_request target sender) in
      (
        record { tcp_header = omega arith; ams_header = omega arith },
        simp length-append
            (omega (arith, length-tcp_wire r.tcp_header, length-ams_wire r.ams_header t s)),
      )

  -- A new ReadDeviceInfo response between two addresses, its result and build of the width of
  -- their fields, with a name of any length, is one that its codec transfers, and its TCP header
  -- announces the bytes behind it, its AMS header the bytes behind both headers.
  pub new_read_device_info_response-Frames :
      (result major minor build : ℕ) (name : List ℕ)
      → result < 2 ^ 32
      → build < 2 ^ 16
      → let r = (new_read_device_info_response target sender result major minor build name) in
        IsReadDeviceInfoResponse r × Frames r.tcp_header r.ams_header (response_wire r)
  unfolding new_read_device_info_response response_wire put_uint16 put_uint32
  new_read_device_info_response-Frames result major minor build name result_fits build_fits =
      let r = (new_read_device_info_response target sender result major minor build name) in
      (
        record {
          tcp_header = omega arith;
          ams_header = omega arith;
          result = result_fits;
          build_version = build_fits;
          device_name = length-copy (replicate 16 0) name;
        },
        simp length-append (
            omega (
              arith,
              length-tcp_wire r.tcp_header,
              length-ams_wire r.ams_header t s,
              length-copy (replicate 16 0) name,
            )),
      )

  -- A new ReadDeviceInfo request, and a new ReadDeviceInfo response with a result and build of the
  -- width of their fields and a name of any length, between two addresses, are ones that their codecs
  -- transfer, and their TCP headers announce the bytes behind them, their AMS headers the bytes behind
  -- both headers.
  pub new_read_device_info-Frames :
      (result major minor build : ℕ) (name : List ℕ)
      → result < 2 ^ 32
      → build < 2 ^ 16
      → let q = new_read_device_info_request target sender in
        let r = new_read_device_info_response target sender result major minor build name in
        (IsReadDeviceInfoRequest q × Frames q.tcp_header q.ams_header (request_wire q))
        × (IsReadDeviceInfoResponse r × Frames r.tcp_header r.ams_header (response_wire r))
  new_read_device_info-Frames result major minor build name a b = (
    new_read_device_info_request-Frames,
    new_read_device_info_response-Frames result major minor build name a b,
  )
