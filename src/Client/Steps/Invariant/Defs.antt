-- ===== src/Client/Steps/Invariant/Defs.antt =====
-- What holds of the client's goroutines in every state that can come to be: the statement.
use goads.Base.{ℕ, ◌+◌, ◌%◌, ◌^◌, ◌<◌, ◌≡◌, ◌≢◌, Bool, true, false, Option, none, some}
use goads.Base.Assoc.{lookup}
use goads.Ams.Packet.{Packet}
use goads.Client.Send.{fresh_id}
use goads.Client.Steps.{
  Channel, answered, answered_nil, Phase, idle, numbered, registered, unregistering, waiting,
  returned, gives, closes, crashed, System,
}

-- The invoke id of call `i` of a client that starts from `first`.
abbrev pub invoke_id_of : ℕ → ℕ → ℕ
invoke_id_of first i = (first + i + 1) % 2 ^ 32

-- The invoke id that a call has.
abbrev pub id_of : Phase → Option ℕ
id_of idle = none
id_of (numbered id) = some id
id_of (registered id) = some id
id_of (unregistering id) = some id
id_of (waiting id) = some id
id_of (returned id _) = some id

-- Whether a call has made its channel, when it did not fail before.
abbrev pub has_channel : Phase → Bool
has_channel idle = false
has_channel (numbered _) = false
has_channel _ = true

-- Whether a call may still get a packet.
abbrev pub awaits : Phase → Bool
awaits (registered _) = true
awaits (waiting _) = true
awaits _ = false

abbrev pub Good : ℕ → Phase → Type 0
Good n (returned id (answered k p)) = k ≡ n
Good n (returned id answered_nil) = ⊥
Good n _ = Unit

-- A channel that is given nothing yet.
abbrev pub Empty : Channel → Type 0
Empty c = (c.content ≡ none) × (c.closed ≡ false)

pub record Inv (first : ℕ) (s : System) : Type 0 where
  pub next : fresh_id s.client ≡ invoke_id_of first s.begun
  pub tagged :
      (i id : ℕ) → id_of (s.phase i) ≡ some id → (id ≡ invoke_id_of first i) × (i < s.begun)
  pub listed :
      (k i : ℕ)
      → lookup k s.client.handler ≡ some i
      → (k ≡ invoke_id_of first i) × (has_channel (s.phase i) ≡ true) × Empty (s.channel i)
  pub held :
      (i k : ℕ) (p : Packet)
      → s.hand ≡ gives i k p
      → (k ≡ invoke_id_of first i)
        × (has_channel (s.phase i) ≡ true)
        × Empty (s.channel i)
        × (lookup k s.client.handler ≢ some i)
  pub sent :
      (i : ℕ)
      → s.hand ≡ closes i
      → ((s.channel i).closed ≡ false)
        × (has_channel (s.phase i) ≡ true)
        × (lookup (invoke_id_of first i) s.client.handler ≢ some i)
  pub filled :
      (i k : ℕ) (p : Packet) → (s.channel i).content ≡ some (k, p) → (k ≡ invoke_id_of first i)
  pub given :
      (i : ℕ)
      → awaits (s.phase i) ≡ true
      → (s.channel i).content ≡ none
      → ((s.channel i).closed ≡ false) × (s.hand ≢ closes i)
  pub good : (i : ℕ) → Good (invoke_id_of first i) (s.phase i)
  pub sound : s.hand ≢ crashed
