-- ===== src/Client/Exchange.antt =====
-- A Read request and its answer, from `Client.Read` to the channel and back.
use goads.Base.{ℕ, ◌≡◌, refl, ap, ◌∙◌, arith, true, false, some, none, [], ◌∷◌}
use goads.Base.Assoc.{lookup, erase, insert, lookup-insert, lookup-erase}
use goads.Ams.Read.{ReadRequest, ReadResponse}
use goads.Ams.Read.Wire.{request_wire, Writes-request}
use goads.Ams.Packet.{read_response, Packet}
use goads.Ams.Packet.Wire.{packet_wire, IsPacket}
use goads.Client.{Client, Choice, deliver, continues, forward, dispatch, turn}
use goads.Client.Receive.{turn-packet}
use goads.Client.Send.{send, waits, fresh_id, with_id, on_encoded, read_as, encoded, accept_read}

-- The request as it is sent under an invoke id.
abbrev pub numbered : ReadRequest → ℕ → ReadRequest
numbered req id = record req { ams_header = record req.ams_header { invoke_id = id } }

-- The client that waits for an answer on a channel.
unfoldable pub waiting : Client → ℕ → Client
waiting c channel = record (with_id c) { handler = insert (fresh_id c) channel c.handler }

-- A response to a waiting request goes to the channel of the request.
forward-waiting :
    (choice : Choice) (c : Client) (channel : ℕ) (p : Packet)
    → choice.takes_done ≡ false
    → forward choice (waiting c channel) (fresh_id c) p
      ≡ continues
          (record (waiting c channel) { handler = erase (fresh_id c) (waiting c channel).handler })
          (deliver channel p ∷ [])
unfolding forward waiting
forward-waiting choice c channel p goes =
    let found : lookup (fresh_id c) (insert (fresh_id c) channel c.handler) ≡ some channel =
      lookup-insert (fresh_id c) (fresh_id c) channel c.handler ∙ ground arith in
    rw (found, forward) (rw goes refl)

-- `Client.Read` sends its request under the next invoke id and waits on its channel. The Read response
-- with that id, its fields within their types and its header that of a Read response, is given to that
-- channel unless the context is done, and `Read` returns it; its handler is then gone.
pub read_exchange :
    (choice : Choice) (c : Client) (channel : ℕ) (req : ReadRequest) (r : ReadResponse)
    → choice.takes_done ≡ false
    → IsPacket (read_response r)
    → r.ams_header.invoke_id ≡ fresh_id c
    → let c' = waiting c channel in
      (send true channel c (read_as req) ≡ waits c' (request_wire (numbered req (fresh_id c))))
      × (turn choice c' (packet_wire (read_response r))
          ≡ continues
              (record c' { handler = erase (fresh_id c) c'.handler })
              (deliver channel (read_response r) ∷ []))
      × (lookup (fresh_id c) (erase (fresh_id c) c'.handler) ≡ none)
      × (accept_read (read_response r) ≡ some r)
unfolding send on_encoded read_as waiting accept_read dispatch
read_exchange choice c channel req r goes v same = (
  rw ((Writes-request (numbered req (fresh_id c))).run [], encoded) refl,
  turn-packet choice (waiting c channel) (read_response r) v
      ∙ ap (λ id. forward choice (waiting c channel) id (read_response r)) same
      ∙ forward-waiting choice c channel (read_response r) goes,
  lookup-erase (fresh_id c) (fresh_id c) (waiting c channel).handler ∙ ground arith,
  refl,
)
