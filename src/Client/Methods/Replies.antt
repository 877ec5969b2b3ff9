-- ===== src/Client/Methods/Replies.antt =====
-- What a method returns where the device answers its request, with other packets before the answer.
use goads.Base.{
  suc, length, ◌≤◌, ℕ, ◌+◌, ◌<◌, ◌≡◌, refl, ap, ◌∙◌, true, false, none, some, List, [], ◌∷◌, ◌++◌,
  arith,
}
use goads.Base.Assoc.{lookup, erase, lookup-erase, lookup-insert}
use goads.Ams.Packet.{Packet}
use goads.Ams.Packet.Wire.{ams_of, packet_wire, IsPacket}
use goads.Client.{Client, Choice, deliver, continues, forward}
use goads.Client.Send.{with_id, send, fresh_id, on_encoded}
use goads.Client.Methods.{
  Method, Request, Response, Connection, delivered_to, on_turn, on_read, fed, await, accepted,
  on_sent, call_method,
}
use goads.Client.Exchange.{waiting}
use goads.Client.Methods.Passing.{Waits}
use goads.Client.Methods.Arriving.{Comes, read_whole, reads_enough, await-Comes, await_fails}
use goads.Client.Methods.Packets.{
  packet_of, sent_as, IsRequest, wire_of, encodes, turn_answer, accepts,
}
use goads.Link.{ok, failed}

-- A client between two calls: the handler map has no channel that is not made yet.
abbrev pub Ready : {D : Type 0} → Connection D → Type 0
Ready w = (k j : ℕ) → lookup k w.client.handler ≡ some j → j < w.made

forward_answer :
    (choice : Choice) (h id : ℕ) (c : Client) (p : Packet)
    → choice.takes_done ≡ false
    → Waits h id c
    → forward choice c id p
      ≡ continues (record c { handler = erase id c.handler }) (deliver h p ∷ [])
unfolding forward
forward_answer choice h id c p goes ready = rw (ready.stands, forward) (rw goes refl)

registers-Waits :
    {D : Type 0} (w : Connection D)
    → Ready w
    → Waits w.made (fresh_id w.client) (waiting w.client w.made)
unfolding waiting
registers-Waits w ready =
    let found = λ (k : ℕ). lookup-insert (fresh_id w.client) k w.made w.client.handler in
    record {
      stands = found (fresh_id w.client) ∙ ground arith;
      only = λ k e. ground (arith, found k, ready k w.made);
      below = λ k j e. ground (arith, found k, ready k j);
    }

module _ {D : Type 0} (device : List ℕ → D → List (List ℕ) × D) (choice : Choice) where
  await_answer :
      (m : Method) (y : Response m) (h id reads : ℕ) (after : List (List ℕ)) (w : Connection D)
      → choice.takes_done ≡ false
      → Waits h id w.client
      → IsPacket (packet_of m y)
      → length (packet_wire (packet_of m y)) ≤ 1500
      → (ams_of (packet_of m y)).invoke_id ≡ id
      → accepted m (
          await device choice h
            (suc reads)
            (record w { inbox = packet_wire (packet_of m y) ∷ after }))
        ≡ (
          ok y,
          record w {
            client = record w.client { handler = erase id w.client.handler };
            inbox = after;
          },
        )
  unfolding await on_read on_turn accepted delivered_to fed
  await_answer m y h id reads after w goes ready v short same =
      let turned =
        turn_answer choice m w.client y v
        ∙ ap (λ k. forward choice w.client k (packet_of m y)) same
        ∙ forward_answer choice h id w.client (packet_of m y) goes ready in
      let given : delivered_to h (deliver h (packet_of m y) ∷ []) ≡ some (packet_of m y) =
        ground arith in
      ap
        (λ o. accepted m (
          on_read device choice (await device choice h reads) h
            (record w { inbox = packet_wire (packet_of m y) ∷ after }) o))
        (read_whole (packet_wire (packet_of m y)) after short)
      ∙ rw (turned, on_turn) (rw (given, on_turn, accepted) (rw (accepts m y, accepted) refl))

  erased-Ready :
      (w : Connection D) (h id : ℕ) (c : Client) (after : List (List ℕ)) (d : D)
      → Waits h id c
      → h < w.made
      → Ready (record w {
        client = record c { handler = erase id c.handler };
        inbox = after;
        device = d;
      })
  erased-Ready w h id c after d waiting_still less k j e =
      ground (arith, lookup-erase id k c.handler, waiting_still.below k j)

  -- The bytes of a request as it is written, with the next invoke id, and what the device makes of it.
  abbrev written : (m : Method) → Request m → Connection D → List ℕ
  written m x w = wire_of m (sent_as m x (fresh_id w.client))

  abbrev asked : (m : Method) → Request m → Connection D → List (List ℕ) × D
  asked m x w = device (written m x w) w.device

  -- The world in which a call waits.
  abbrev waiting_connection : Connection D → List (List ℕ) → D → Connection D
  waiting_connection w come d = record w {
    client = waiting w.client w.made;
    made = w.made + 1;
    inbox = come;
    device = d;
  }

  call_method-waits :
      (reads : ℕ) (m : Method) (x : Request m) (w : Connection D)
      → choice.write_works ≡ true
      → w.running ≡ true
      → IsRequest m (sent_as m x (fresh_id w.client))
      → call_method device choice reads m x w
        ≡ accepted m (
            await device choice w.made reads
              (waiting_connection w (w.inbox ++ (asked m x w).0) (asked m x w).1))
  unfolding call_method on_sent send on_encoded waiting
  call_method-waits reads m x w works runs fits =
      rw (works, encodes m x (fresh_id w.client) fits, runs) refl

  waiting_states :
      (w : Connection D)
      → ((waiting w.client w.made).ads_state ≡ w.client.ads_state)
        × ((waiting w.client w.made).device_state ≡ w.client.device_state)
  unfolding waiting with_id
  waiting_states w = (refl, refl)

  -- A method of a client whose `receive` runs, where the write works, the request fits its wire format
  -- and the handler map has no channel that is not made yet. What comes behind the request is packets
  -- that the client knows, each of at most 1500 bytes and whole in one read: notifications, responses to
  -- other requests, requests for the state, which the client answers, and what the device sends back for
  -- those answers. However many reads are made before the time is up, the method fails, and its channel
  -- then still stands in the handler map under the request's invoke id.
  pub call_method-times_out :
      (reads n : ℕ) (m : Method) (x : Request m) (w : Connection D) (d' : D)
      → choice.write_works ≡ true
      → w.running ≡ true
      → Ready w
      → IsRequest m (sent_as m x (fresh_id w.client))
      → (let (answers, d) = device (wire_of m (sent_as m x (fresh_id w.client))) w.device in
          Comes device
            (fresh_id w.client)
            w.client.ads_state
            w.client.device_state
            n
            (w.inbox ++ answers)
            d
            []
            d')
      → let (reply, w') = call_method device choice reads m x w in
        (reply ≡ failed) × (lookup (fresh_id w.client) w'.client.handler ≡ some w.made)
  unfolding accepted
  call_method-times_out reads n m x w d' works runs ready fits come =
      let (ads, dev) = waiting_states w in
      let (c, w2, still, fails) =
        await_fails device choice w.made (fresh_id w.client) w.client.ads_state
          w.client.device_state (waiting_connection w [] w.device) works reads n _ _ d'
          (waiting w.client w.made) come (registers-Waits w ready) ads dev in
      let ends = call_method-waits reads m x w works runs fits ∙ ap (accepted m) fails in
      rw ends (refl, still.stands)

  -- A method of a client whose `receive` runs, where the write works and the context is not done, the
  -- request fits its wire format and the handler map has no channel that is not made yet. What comes
  -- behind the request, in the connection already or from the device, is first any packets that the
  -- client knows and that are no response to this request: notifications, responses to other requests,
  -- requests for the state, which the client answers, and what the device sends back for those answers.
  -- Then comes a response of the method's type with the request's invoke id. Each of these packets has
  -- at most 1500 bytes and comes whole in one read, and more reads are made before the time is up than
  -- there are packets before the response. Then the method returns that response, what came behind it is
  -- left in the connection, the device has got the request under the next invoke id and then the
  -- answers to its requests for the state and nothing else, the handler is gone, and the handler map
  -- again has no channel that is not made yet.
  pub call_method-returns :
      (reads n : ℕ) (m : Method) (x : Request m) (y : Response m) (after : List (List ℕ))
      (w : Connection D) (d' : D)
      → n < reads
      → choice.write_works ≡ true
      → choice.takes_done ≡ false
      → w.running ≡ true
      → Ready w
      → IsRequest m (sent_as m x (fresh_id w.client))
      → IsPacket (packet_of m y)
      → length (packet_wire (packet_of m y)) ≤ 1500
      → (ams_of (packet_of m y)).invoke_id ≡ fresh_id w.client
      → (let (answers, d) = device (wire_of m (sent_as m x (fresh_id w.client))) w.device in
          Comes device
            (fresh_id w.client)
            w.client.ads_state
            w.client.device_state
            n
            (w.inbox ++ answers)
            d
            (packet_wire (packet_of m y) ∷ after)
            d')
      → let (reply, w') = call_method device choice reads m x w in
        (reply ≡ ok y)
        × (w'.inbox ≡ after)
        × (w'.device ≡ d')
        × (lookup (fresh_id w.client) w'.client.handler ≡ none)
        × Ready w'
  call_method-returns reads n m x y after w d' enough works goes runs ready fits v short same come =
      let id = fresh_id w.client in
      let (ads, dev) = waiting_states w in
      let (more, spent) = reads_enough n reads enough in
      let (c, still, reads_on) =
        await-Comes device choice w.made id w.client.ads_state w.client.device_state
          (waiting_connection w [] w.device) works n _ _ _ d' (suc more) (waiting w.client w.made)
          come (registers-Waits w ready) ads dev in
      let e =
        call_method-waits reads m x w works runs fits
        ∙ ap
            (λ r. accepted m (
              await device choice w.made r
                (waiting_connection w (w.inbox ++ (asked m x w).0) (asked m x w).1)))
            spent
        ∙ ap (accepted m) reads_on
        ∙ await_answer m y w.made id more after (record (waiting_connection w [] d') { client = c })
            goes still v short same in
      rw e (
        refl,
        refl,
        refl,
        lookup-erase id id c.handler ∙ ground arith,
        erased-Ready (waiting_connection w [] d') w.made id c after d' still (omega arith),
      )
