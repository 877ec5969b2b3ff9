-- ===== src/Ams/Write/Framing.antt =====
-- The lengths that `NewWriteRequest` announces.
use goads.Base.{ℕ, ◌+◌, ◌^◌, ◌<◌, List, length, length-append, arith}
use goads.Ams.Buffer.{put_uint16, put_uint32}
use goads.Ams.Addr.{Addr}
use goads.Ams.Header.Codec.{IsAddr}
use goads.Ams.Framing.{Frames, length-tcp_wire, length-ams_wire}
use goads.Ams.Write.{new_write_request}
use goads.Ams.Write.Wire.{IsWriteRequest, request_wire}

module _ {target sender : Addr} (t : IsAddr target) (s : IsAddr sender) where
  -- A new Write request between two addresses, its two numbers of 32 bits, with data that leaves
  -- room in 32 bits for 44 more bytes, is one that its codec transfers, and its TCP header
  -- announces the bytes behind it, its AMS header the bytes behind both headers.
  pub new_write_request-Frames :
      (group offset : ℕ) (payload : List ℕ)
      → group < 2 ^ 32
      → offset < 2 ^ 32
      → length payload + 44 < 2 ^ 32
      → let r = (new_write_request target sender group offset payload) in
        IsWriteRequest r × Frames r.tcp_header r.ams_header (request_wire r)
  unfolding new_write_request request_wire put_uint16 put_uint32
  new_write_request-Frames group offset payload group_fits offset_fits payload_fits =
      let r = (new_write_request target sender group offset payload) in
      (
        record {
          tcp_header = omega arith;
          ams_header = omega arith;
          index_group = group_fits;
          index_offset = offset_fits;
          length_fits = omega arith;
          payload = omega arith;
        },
        simp length-append
            (omega (arith, length-tcp_wire r.tcp_header, length-ams_wire r.ams_header t s)),
      )
