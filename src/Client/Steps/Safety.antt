-- ===== src/Client/Steps/Safety.antt =====
-- The comments in `send` and `receive` of client.go on their channels: the sends to them, their
-- closing, and what calls return.
use goads.Base.{ℕ, ◌≡◌, Bool, false, ap, refl}
use mathlib.Core.Path.{subst}
use goads.Client.Steps.{
  Verdict, answered, answered_nil, Hand, gives, closes, crashed, returned, Channel, System, Reach,
}
use goads.Client.Steps.Invariant.{invoke_id_of, Empty, Inv, Reach-Inv, Good, id_of}

-- What a call with an invoke id may return: a packet with that id, or an error. The nil of a closed
-- channel is ruled out.
abbrev pub Proper : ℕ → Verdict → Type 0
Proper id (answered k p) = k ≡ id
Proper id answered_nil = ⊥
Proper id _ = Unit

Good-Proper : (n id : ℕ) (v : Verdict) → id ≡ n → Good n (returned id v) → Proper id v
Good-Proper n id (answered k p) e g = cc
Good-Proper n id answered_nil e g = g
Good-Proper n id _ e g = tt

-- A send to a channel does not block or panic, and no channel is closed twice.
abbrev pub Safe : (ℕ → Channel) → Hand → Type 0
Safe channel (gives i k p) = Empty (channel i)
Safe channel (closes i) = (channel i).closed ≡ false
Safe channel crashed = ⊥
Safe channel _ = Unit

held-Safe : {first : ℕ} {s : System} → Inv first s → (h : Hand) → s.hand ≡ h → Safe s.channel h
held-Safe inv (gives i k p) e = (inv.held i k p e).2
held-Safe inv (closes i) e = (inv.sent i e).0
held-Safe inv crashed e = absurd (inv.sound e)
held-Safe inv _ e = tt

-- In every state that can come to be the channel to which `receive` is about to send a packet is open
-- and holds nothing, so that the send neither blocks nor panics, the one that it is about to close is
-- open, and no send to or close of a channel has panicked.
pub receive-Safe :
    {ctx_done : Bool} {first : ℕ} {s : System} → Reach ctx_done first s → Safe s.channel s.hand
receive-Safe {s} r = held-Safe (Reach-Inv r) s.hand refl

-- In every state that can come to be a call that has returned has the invoke id of its number, modulo
-- 2 ^ 32, and if it returned a response, that has the same invoke id; it never got the nil of a closed
-- channel.
pub returns_Proper :
    {ctx_done : Bool} {first : ℕ} {s : System} {i id : ℕ} {v : Verdict}
    → Reach ctx_done first s
    → s.phase i ≡ returned id v
    → (id ≡ invoke_id_of first i) × Proper id v
returns_Proper {first} {s} {i} {id} {v} r e =
    let inv = Reach-Inv r in
    let own : id ≡ invoke_id_of first i = (inv.tagged i id (ap id_of e)).0 in
    let good : Good (invoke_id_of first i) (returned id v) =
      subst (Good (invoke_id_of first i)) e (inv.good i) in
    (own, Good-Proper (invoke_id_of first i) id v own good)
