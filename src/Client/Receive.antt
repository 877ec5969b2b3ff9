-- ===== src/Client/Receive.antt =====
-- What the loop of `receive` does with the bytes of a packet that it knows.
use goads.Base.{◌≡◌, refl}
use goads.Ams.Header.{zero_header}
use goads.Ams.Packet.{Packet}
use goads.Ams.Packet.Wire.{ams_of, packet_wire, IsPacket, packet_headers, packet_decodes}
use goads.Client.{Client, Choice, dispatch, on_header, on_decoded, turn}

-- A turn on the bytes of a packet that the client knows, its fields within their types and its
-- header bearing its command id and flags, handles that packet under its invoke id.
pub turn-packet :
    (choice : Choice) (c : Client) (p : Packet)
    → IsPacket p
    → turn choice c (packet_wire p) ≡ dispatch choice c (ams_of p).invoke_id p
unfolding turn on_header on_decoded
turn-packet choice c p v =
    let (body, headers) = packet_headers zero_header p v in
    let (decode, picked, decoded) = packet_decodes p v in
    rw (headers, on_header) (rw (picked, on_header) (rw (decoded, on_decoded) refl))
