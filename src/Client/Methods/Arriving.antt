-- ===== src/Client/Methods/Arriving.antt =====
-- The packets that come while a call waits, and what the reads of them lead to.
use goads.Base.{
  ℕ, zero, suc, ◌<◌, ◌≤◌, ◌≡◌, refl, ap, ◌∙◌, true, some, List, [], ◌∷◌, ◌++◌, length, take_all,
  drop_all, arith,
}
use goads.Ams.Packet.{Packet, read_state_request}
use goads.Ams.Packet.Wire.{packet_wire, IsPacket}
use goads.Ams.ReadState.{ReadStateRequest}
use goads.Client.{Client, Choice, turn}
use goads.Client.Methods.{Connection, read_next, give_device, on_turn, on_read, await}
use goads.Client.Methods.Passing.{Waits, Passes, Passed, state_answer, turn-Passed, question-Passed}
use goads.Link.{failed}

-- The packets that come, each in one read, before `out` is what is left, with what the device sends
-- back for the answers to its requests for the state: none is a response to the request with the id.
pub data Comes {D : Type 0} (device : List ℕ → D → List (List ℕ) × D)
    (id ads_state device_state : ℕ) : ℕ → List (List ℕ) → D → List (List ℕ) → D → Type 0 where
  nothing_else :
      (inbox : List (List ℕ)) (d : D) → Comes device id ads_state device_state 0 inbox d inbox d
  a_question :
      (r : ReadStateRequest) (n : ℕ) (rest out : List (List ℕ)) (d d' : D)
      → IsPacket (read_state_request r)
      → length (packet_wire (read_state_request r)) ≤ 1500
      → Comes device id ads_state device_state n
          (rest ++ (device (state_answer ads_state device_state r) d).0)
          (device (state_answer ads_state device_state r) d).1
          out
          d'
      → Comes device id ads_state device_state
          (suc n)
          (packet_wire (read_state_request r) ∷ rest)
          d
          out
          d'
  another :
      (p : Packet) (n : ℕ) (rest out : List (List ℕ)) (d d' : D)
      → IsPacket p
      → length (packet_wire p) ≤ 1500
      → Passes id p
      → Comes device id ads_state device_state n rest d out d'
      → Comes device id ads_state device_state (suc n) (packet_wire p ∷ rest) d out d'

-- A number of reads, and more behind them.
abbrev pub reads_then : ℕ → ℕ → ℕ
reads_then zero more = more
reads_then (suc n) more = suc (reads_then n more)

-- More reads than a number are that number, one, and some more.
pub reads_enough : (n reads : ℕ) → n < reads → (more : ℕ) × (reads ≡ reads_then n (suc more))
reads_enough n zero less = absurd (omega arith)
reads_enough zero (suc reads) less = (reads, refl)
reads_enough (suc n) (suc reads) less =
    let (more, same) = reads_enough n reads (omega arith) in (more, ap suc same)

-- A packet of no more bytes than the buffer has is read whole.
pub read_whole :
    (bytes : List ℕ) (rest : List (List ℕ))
    → length bytes ≤ 1500
    → read_next (bytes ∷ rest) ≡ some (bytes, rest)
unfolding read_next
read_whole bytes rest short = rw (take_all 1500 bytes short, drop_all 1500 bytes short) refl

module _ {D : Type 0} (device : List ℕ → D → List (List ℕ) × D) (choice : Choice) (h id : ℕ) where
  -- A turn that leaves the call waiting leads to the next read.
  await_step :
      (does : Connection D → Connection D) (p : Packet) (rest : List (List ℕ)) (reads : ℕ)
      (w : Connection D)
      → length (packet_wire p) ≤ 1500
      → Passed device does h id w.client (turn choice w.client (packet_wire p))
      → (c : Client) × Waits h id c
        × (c.ads_state ≡ w.client.ads_state)
        × (c.device_state ≡ w.client.device_state)
        × (await device choice h (suc reads) (record w { inbox = packet_wire p ∷ rest })
            ≡ await device choice h reads (does (record w { client = c; inbox = rest })))
  unfolding await on_read on_turn
  await_step does p rest reads w short (c, es, same, none_given, still, ads, dev, feeds) = (
    c,
    still,
    ads,
    dev,
    ap
          (on_read device choice (await device choice h reads) h
            (record w { inbox = packet_wire p ∷ rest }))
          (read_whole (packet_wire p) rest short)
        ∙ rw (same, on_turn)
            (rw (none_given, on_turn)
              (ap (await device choice h reads) (feeds (record w { client = c; inbox = rest })))),
  )

  -- The connection of a call with a client, packets that are not read, and a device.
  abbrev pub at : Connection D → Client → List (List ℕ) → D → Connection D
  at w c inbox d = record w { client = c; inbox = inbox; device = d }

  module _ (ads_state device_state : ℕ) (w : Connection D) (works : choice.write_works ≡ true) where
    pub await-Comes :
        (n : ℕ) (inbox out : List (List ℕ)) (d d' : D) (more : ℕ) (c : Client)
        → Comes device id ads_state device_state n inbox d out d'
        → Waits h id c
        → c.ads_state ≡ ads_state
        → c.device_state ≡ device_state
        → (c' : Client) × Waits h id c'
          × (await device choice h (reads_then n more) (at w c inbox d)
              ≡ await device choice h more (at w c' out d'))
    await-Comes _ _ _ _ _ more c (nothing_else inbox d) ready ads dev = (c, ready, refl)
    await-Comes _ _ out d d' more c (a_question r n rest _ _ _ v short comes) ready ads dev =
        let (c1, still, ads1, dev1, stepped) =
          await_step (give_device device (state_answer c.ads_state c.device_state r))
            (read_state_request r) rest (reads_then n more) (at w c rest d) short
            (question-Passed device choice h id c ready r works v) in
        let answer : state_answer c.ads_state c.device_state r
            ≡ state_answer ads_state device_state r =
          ap (λ s. state_answer s c.device_state r) ads
          ∙ ap (λ s. state_answer ads_state s r) dev in
        let (c2, left, read) =
          await-Comes n _ out _ d' more c1 comes still (ads1 ∙ ads) (dev1 ∙ dev) in
        (
          c2,
          left,
          stepped
              ∙ ap
                  (λ bytes.
                    await device choice h (reads_then n more)
                      (give_device device bytes (at w c1 rest d)))
                  answer
              ∙ read,
        )
    await-Comes _ _ out d d' more c (another p n rest _ _ _ v short other comes) ready ads dev =
        let (c1, still, ads1, dev1, stepped) =
          await_step (λ v. v) p rest (reads_then n more) (at w c rest d) short
            (turn-Passed device choice h id c ready p v other) in
        let (c2, left, read) =
          await-Comes n rest out d d' more c1 comes still (ads1 ∙ ads) (dev1 ∙ dev) in
        (c2, left, stepped ∙ read)

    -- Where no response comes, the call times out, after however many reads.
    pub await_fails :
        (reads n : ℕ) (inbox : List (List ℕ)) (d d' : D) (c : Client)
        → Comes device id ads_state device_state n inbox d [] d'
        → Waits h id c
        → c.ads_state ≡ ads_state
        → c.device_state ≡ device_state
        → (c' : Client) × (w' : Connection D) × Waits h id c'
          × (await device choice h reads (at w c inbox d) ≡ (failed, record w' { client = c' }))
    unfolding await on_read read_next
    await_fails zero n inbox d d' c comes ready ads dev = (c, at w c inbox d, ready, refl)
    await_fails (suc reads) _ _ _ _ c (nothing_else _ d) ready ads dev =
        (c, at w c [] d, ready, refl)
    await_fails (suc reads) _ _ d d' c (a_question r n rest _ _ _ v short comes) ready ads dev =
        let (c1, still, ads1, dev1, stepped) =
          await_step (give_device device (state_answer c.ads_state c.device_state r))
            (read_state_request r) rest reads (at w c rest d) short
            (question-Passed device choice h id c ready r works v) in
        let answer : state_answer c.ads_state c.device_state r
            ≡ state_answer ads_state device_state r =
          ap (λ s. state_answer s c.device_state r) ads
          ∙ ap (λ s. state_answer ads_state s r) dev in
        let (c2, w2, left, read) =
          await_fails reads n _ _ d' c1 comes still (ads1 ∙ ads) (dev1 ∙ dev) in
        (
          c2,
          w2,
          left,
          stepped
              ∙ ap
                  (λ bytes. await device choice h reads (give_device device bytes (at w c1 rest d)))
                  answer
              ∙ read,
        )
    await_fails (suc reads) _ _ d d' c (another p n rest _ _ _ v short other comes) ready ads dev =
        let (c1, still, ads1, dev1, stepped) =
          await_step (λ v. v) p rest reads (at w c rest d) short
            (turn-Passed device choice h id c ready p v other) in
        let (c2, w2, left, read) =
          await_fails reads n rest d d' c1 comes still (ads1 ∙ ads) (dev1 ∙ dev) in
        (c2, w2, left, stepped ∙ read)
