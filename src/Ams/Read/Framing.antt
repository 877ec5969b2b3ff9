-- ===== src/Ams/Read/Framing.antt =====
-- The lengths that `NewReadRequest` announces.
use goads.Base.{ℕ, ◌^◌, ◌<◌, length-append, arith}
use goads.Ams.Buffer.{put_uint16, put_uint32}
use goads.Ams.Addr.{Addr}
use goads.Ams.Header.Codec.{IsAddr}
use goads.Ams.Framing.{Frames, length-tcp_wire, length-ams_wire}
use goads.Ams.Read.{new_read_request}
use goads.Ams.Read.Wire.{IsReadRequest, request_wire}

module _ {target sender : Addr} (t : IsAddr target) (s : IsAddr sender) where
  -- A new Read request between two addresses, its three numbers of 32 bits, is one that its
  -- codec transfers, and its TCP header announces the bytes behind it, its AMS header the bytes
  -- behind both headers.
  pub new_read_request-Frames :
      (group offset size : ℕ)
      → group < 2 ^ 32
      → offset < 2 ^ 32
      → size < 2 ^ 32
      → let r = (new_read_request target sender group offset size) in
        IsReadRequest r × Frames r.tcp_header r.ams_header (request_wire r)
  unfolding new_read_request request_wire put_uint16 put_uint32
  new_read_request-Frames group offset size group_fits offset_fits size_fits =
      let r = (new_read_request target sender group offset size) in
      (
        record {
          tcp_header = omega arith;
          ams_header = omega arith;
          index_group = group_fits;
          index_offset = offset_fits;
          length = size_fits;
        },
        simp length-append
            (omega (arith, length-tcp_wire r.tcp_header, length-ams_wire r.ams_header t s)),
      )
