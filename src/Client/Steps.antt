-- ===== src/Client/Steps.antt =====
-- client.go, `send` and `receive` as goroutines: every call of `send` and the loop of `receive` take
-- their steps in any order. A critical section of `c.mu`, an atomic addition, and an operation of a
-- channel are one step each.
pub mod Invariant
pub mod Safety
pub mod Progress
pub mod Answers
pub mod Sequential
use goads.Base.{ℕ, ◌+◌, ◌≡◌, Bool, true, false, Option, none, some, List}
use goads.Base.Assoc.{lookup, erase, insert}
use goads.Base.Family.{update}
use goads.Ams.Constants.{ads_state_run}
use goads.Ams.Packet.{Packet}
use goads.Client.{Client}
use goads.Client.Send.{fresh_id, with_id}

-- A channel of capacity one. A packet goes with the invoke id in the header that `receive` decoded.
pub record Channel : Type 0 where
  pub content : Option (ℕ × Packet)
  pub closed : Bool

-- `make(chan ams.Response, 1)`
abbrev pub made_channel : Channel
made_channel = record { content = none; closed = false }

-- What `send` returns: the result of the callback on a packet, or on the nil that a closed channel
-- gives, or an error.
pub data Verdict : Type 0 where
  answered : ℕ → Packet → Verdict
  answered_nil timed_out cancelled unwritten unencoded : Verdict

-- How far a call of `send` is. It knows its invoke id from the atomic addition on.
pub data Phase : Type 0 where
  idle : Phase
  numbered registered unregistering waiting : ℕ → Phase
  returned : ℕ → Verdict → Phase

-- What `receive` is about to do: to take a packet, to send one to a channel, or to close a channel.
pub data Hand : Type 0 where
  takes : Hand
  gives : ℕ → ℕ → Packet → Hand
  closes : ℕ → Hand
  stopped crashed : Hand

-- Call `i` is the one that makes the `i`-th addition, from 0 on, and channel `i` is the one it makes.
pub record System : Type 0 where
  pub client : Client
  pub begun : ℕ
  pub phase : ℕ → Phase
  pub channel : ℕ → Channel
  pub hand : Hand

abbrev pub with_phase : System → ℕ → Phase → System
with_phase s i p = record s { phase = update s.phase i p }

abbrev pub with_handler : System → List (ℕ × ℕ) → System
with_handler s m = record s { client = record s.client { handler = m } }

abbrev pub with_channel : System → ℕ → Channel → System
with_channel s i c = record s { channel = update s.channel i c }

abbrev pub with_hand : System → Hand → System
with_hand s h = record s { hand = h }

-- `pkt.Header().InvokeID = atomic.AddUint32(&c.nextInvokeID, 1)`
abbrev pub begin : System → System
begin s = record (with_phase s s.begun (numbered (fresh_id s.client))) {
  client = with_id s.client;
  begun = s.begun + 1;
}

-- `h := make(…)` and `c.handler[pkt.Header().InvokeID] = h`
abbrev pub register : System → ℕ → ℕ → System
register s i id =
    with_channel (with_handler (with_phase s i (registered id)) (insert id i s.client.handler)) i
      made_channel

-- `delete(c.handler, pkt.Header().InvokeID)` behind a failing `Write`
abbrev pub unregister : System → ℕ → ℕ → System
unregister s i id =
    with_handler (with_phase s i (returned id unwritten)) (erase id s.client.handler)

-- `r := <-h` where the channel holds a packet
abbrev pub collect : System → ℕ → ℕ → ℕ → Packet → System
collect s i id k p =
    with_channel (with_phase s i (returned id (answered k p))) i
      (record (s.channel i) { content = none })

-- `h := c.handler[invokeID]` and `delete(c.handler, invokeID)`
abbrev pub look_up : System → ℕ → Hand → System
look_up s k h = with_hand (with_handler s (erase k s.client.handler)) h

-- `h <- pkt`
abbrev pub give : System → ℕ → ℕ → Packet → System
give s i k p =
    with_hand (with_channel s i (record (s.channel i) { content = some (k, p) })) (closes i)

-- `close(h)`
abbrev pub close : System → ℕ → System
close s i = with_hand (with_channel s i (record (s.channel i) { closed = true })) takes

-- One step of one goroutine. A send to a channel that is full blocks; one to a channel that is
-- closed panics, as closing it again does. `ctx_done` says whether the context of `receive` may be
-- done while it sends.
pub data Step (ctx_done : Bool) (s : System) : System → Type 0 where
  begins : Step ctx_done s (begin s)
  gives_up_encoding :
      (i : ℕ) {id : ℕ}
      → s.phase i ≡ numbered id
      → Step ctx_done s (with_phase s i (returned id unencoded))
  registers : (i : ℕ) {id : ℕ} → s.phase i ≡ numbered id → Step ctx_done s (register s i id)
  writes :
      (i : ℕ) {id : ℕ} → s.phase i ≡ registered id → Step ctx_done s (with_phase s i (waiting id))
  fails_to_write :
      (i : ℕ) {id : ℕ}
      → s.phase i ≡ registered id
      → Step ctx_done s (with_phase s i (unregistering id))
  unregisters :
      (i : ℕ) {id : ℕ} → s.phase i ≡ unregistering id → Step ctx_done s (unregister s i id)
  times_out :
      (i : ℕ) {id : ℕ}
      → s.phase i ≡ waiting id
      → Step ctx_done s (with_phase s i (returned id timed_out))
  cancels :
      (i : ℕ) {id : ℕ}
      → s.phase i ≡ waiting id
      → Step ctx_done s (with_phase s i (returned id cancelled))
  gets :
      (i : ℕ) {id k : ℕ} {p : Packet}
      → s.phase i ≡ waiting id
      → (s.channel i).content ≡ some (k, p)
      → Step ctx_done s (collect s i id k p)
  gets_nil :
      (i : ℕ) {id : ℕ}
      → s.phase i ≡ waiting id
      → (s.channel i).content ≡ none
      → (s.channel i).closed ≡ true
      → Step ctx_done s (with_phase s i (returned id answered_nil))
  drops :
      (k : ℕ)
      → s.hand ≡ takes
      → lookup k s.client.handler ≡ none
      → Step ctx_done s (look_up s k takes)
  finds :
      (k : ℕ) (p : Packet) {i : ℕ}
      → s.hand ≡ takes
      → lookup k s.client.handler ≡ some i
      → Step ctx_done s (look_up s k (gives i k p))
  sends :
      {i k : ℕ} {p : Packet}
      → s.hand ≡ gives i k p
      → (s.channel i).closed ≡ false
      → (s.channel i).content ≡ none
      → Step ctx_done s (give s i k p)
  sends_closed :
      {i k : ℕ} {p : Packet}
      → s.hand ≡ gives i k p
      → (s.channel i).closed ≡ true
      → Step ctx_done s (with_hand s crashed)
  skips :
      {i k : ℕ} {p : Packet}
      → ctx_done ≡ true
      → s.hand ≡ gives i k p
      → Step ctx_done s (with_hand s takes)
  closes_open :
      {i : ℕ} → s.hand ≡ closes i → (s.channel i).closed ≡ false → Step ctx_done s (close s i)
  closes_closed :
      {i : ℕ}
      → s.hand ≡ closes i
      → (s.channel i).closed ≡ true
      → Step ctx_done s (with_hand s crashed)
  ends : s.hand ≡ takes → Step ctx_done s (with_hand s stopped)

-- A client that is dialled, without calls.
abbrev pub fresh_system : ℕ → System
fresh_system id = record {
  client = record {
    next_invoke_id = id;
    handler = List.[];
    ads_state = ads_state_run;
    device_state = ads_state_run;
    has_callback = false;
  };
  begun = 0;
  phase = λ _. idle;
  channel = λ _. made_channel;
  hand = takes;
}

-- What can come to be, from the invoke id `first` on.
pub data Reach (ctx_done : Bool) (first : ℕ) : System → Type 0 where
  start : Reach ctx_done first (fresh_system first)
  later : {s t : System} → Reach ctx_done first s → Step ctx_done s t → Reach ctx_done first t

-- Any number of steps.
pub data Steps (ctx_done : Bool) : System → System → Type 0 where
  here : {s : System} → Steps ctx_done s s
  onward : {s t u : System} → Step ctx_done s t → Steps ctx_done t u → Steps ctx_done s u
