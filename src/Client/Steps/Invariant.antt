-- ===== src/Client/Steps/Invariant.antt =====
-- What holds of the client's goroutines in every state that can come to be: each step keeps it.
pub mod Defs
pub use Defs.*
use goads.Base.{ℕ, ◌<◌, ◌≡◌, ◌≢◌, refl, Bool, true, false, none, some, arith}
use goads.Base.Assoc.{lookup, lookup-erase, lookup-insert}
use goads.Ams.Packet.{Packet}
use goads.Client.Send.{fresh_id, with_id}
use goads.Client.Steps.{
  Phase, idle, numbered, registered, unregistering, waiting, returned, takes, gives, closes,
  crashed, fresh_system, System, Step, begins, Reach, start, later,
}

has_id : (p : Phase) → has_channel p ≡ true → (id : ℕ) × (id_of p ≡ some id)
has_id idle e = absurd (ground arith)
has_id (numbered _) e = absurd (ground arith)
has_id (registered id) e = (id, refl)
has_id (unregistering id) e = (id, refl)
has_id (waiting id) e = (id, refl)
has_id (returned id v) e = (id, refl)

-- What a step asks of the goroutine that takes it.
abbrev pub Moves : {b : Bool} {s t : System} → Step b s t → Type 0
Moves {s} (Step.gives_up_encoding i {id} _) = s.phase i ≡ numbered id
Moves {s} (Step.registers i {id} _) = s.phase i ≡ numbered id
Moves {s} (Step.writes i {id} _) = s.phase i ≡ registered id
Moves {s} (Step.fails_to_write i {id} _) = s.phase i ≡ registered id
Moves {s} (Step.unregisters i {id} _) = s.phase i ≡ unregistering id
Moves {s} (Step.times_out i {id} _) = s.phase i ≡ waiting id
Moves {s} (Step.cancels i {id} _) = s.phase i ≡ waiting id
Moves {s} (Step.gets i {id} _ _) = s.phase i ≡ waiting id
Moves {s} (Step.gets_nil i {id} _ _ _) = s.phase i ≡ waiting id
Moves {s} (Step.drops k _ _) = s.hand ≡ takes
Moves {s} (Step.finds k p _ _) = s.hand ≡ takes
Moves {b} (Step.skips _ _) = b ≡ true
Moves {s} (Step.closes_open {i} _ _) = s.hand ≡ closes i
Moves {s} (Step.closes_closed {i} _ _) = s.hand ≡ closes i
Moves {s} (Step.sends_closed {i} _ _) = (s.channel i).closed ≡ true
Moves {s} (Step.ends _) = s.hand ≡ takes
Moves _ = Unit

pub moves : {b : Bool} {s t : System} (st : Step b s t) → Moves st
moves (Step.gives_up_encoding i e) = e
moves (Step.registers i e) = e
moves (Step.writes i e) = e
moves (Step.fails_to_write i e) = e
moves (Step.unregisters i e) = e
moves (Step.times_out i e) = e
moves (Step.cancels i e) = e
moves (Step.gets i e _) = e
moves (Step.gets_nil i e _ _) = e
moves (Step.drops k e _) = e
moves (Step.finds k p e _) = e
moves (Step.skips e _) = e
moves (Step.closes_open e _) = e
moves (Step.closes_closed e _) = e
moves (Step.sends_closed _ c) = c
moves (Step.ends e) = e
moves _ = tt

pub has_begun :
    {first : ℕ} {s : System} → Inv first s → (i : ℕ) → has_channel (s.phase i) ≡ true → i < s.begun
has_begun {s} inv i e = let (id, q) = has_id (s.phase i) e in (inv.tagged i id q).1

module _ {ctx_done : Bool} {first : ℕ} {s : System} (inv : Inv first s) where
  open inv use {next, tagged, listed, held, sent, filled, given, good, sound}

  Step-next : {t : System} → Step ctx_done s t → fresh_id t.client ≡ invoke_id_of first t.begun
  unfolding fresh_id with_id
  Step-next begins = omega arith
  Step-next st = next

  Step-tagged :
      {t : System}
      → Step ctx_done s t
      → (i id : ℕ) → id_of (t.phase i) ≡ some id
      → (id ≡ invoke_id_of first i) × (i < t.begun)
  unfolding with_id
  Step-tagged begins i id e = ground (arith, next, tagged i id)
  Step-tagged st i id e = ground (arith, moves st, tagged i id)

  Step-sound : {t : System} → Step ctx_done s t → t.hand ≢ crashed
  unfolding with_id
  Step-sound (Step.sends_closed {i} {k} {p} e c) = ground (arith, held i k p e)
  Step-sound (Step.closes_closed {i} e c) = ground (arith, sent i e)
  Step-sound st = ground (arith, sound)

  Step-Good : {t : System} → Step ctx_done s t → (i : ℕ) → Good (invoke_id_of first i) (t.phase i)
  unfolding with_id
  Step-Good (Step.gets j {id} {k} {p} e c) i = ground (arith, good i, filled j k p c)
  Step-Good (Step.gets_nil j {id} e c d) i = ground (arith, good i, given j)
  Step-Good st i = ground (arith, good i)

  Step-filled :
      {t : System}
      → Step ctx_done s t
      → (i k : ℕ) (p : Packet) → (t.channel i).content ≡ some (k, p)
      → k ≡ invoke_id_of first i
  unfolding with_id
  Step-filled (Step.sends {i = j} {k = n} {p = q} e c d) i k p f =
      ground (arith, held j n q e, filled i k p)
  Step-filled st i k p f = ground (arith, filled i k p)

  Step-listed :
      {t : System}
      → Step ctx_done s t
      → (k i : ℕ) → lookup k t.client.handler ≡ some i
      → (k ≡ invoke_id_of first i) × (has_channel (t.phase i) ≡ true) × Empty (t.channel i)
  unfolding with_id
  Step-listed begins k i e = ground (arith, listed k i, has_begun inv i)
  Step-listed (Step.registers j {id} f) k i e =
      ground (arith, listed k i, tagged j id, lookup-insert id k j s.client.handler)
  Step-listed (Step.unregisters j {id} f) k i e =
      ground (arith, listed k i, lookup-erase id k s.client.handler)
  Step-listed (Step.drops n f g) k i e =
      ground (arith, listed k i, lookup-erase n k s.client.handler)
  Step-listed (Step.finds n p f g) k i e =
      ground (arith, listed k i, lookup-erase n k s.client.handler)
  Step-listed (Step.sends {i = j} {k = n} {p = q} f c d) k i e =
      ground (arith, listed k i, held j n q f)
  Step-listed (Step.closes_open {i = j} f c) k i e = ground (arith, listed k i, sent j f)
  Step-listed st k i e = ground (arith, listed k i)

  Step-held :
      {t : System}
      → Step ctx_done s t
      → (i k : ℕ) (p : Packet) → t.hand ≡ gives i k p
      → (k ≡ invoke_id_of first i)
        × (has_channel (t.phase i) ≡ true)
        × Empty (t.channel i)
        × (lookup k t.client.handler ≢ some i)
  unfolding with_id
  Step-held begins i k p e = ground (arith, held i k p, has_begun inv i)
  Step-held (Step.registers j {id} f) i k p e =
      ground (arith, held i k p, tagged j id, lookup-insert id k j s.client.handler)
  Step-held (Step.unregisters j {id} f) i k p e =
      ground (arith, held i k p, lookup-erase id k s.client.handler)
  Step-held (Step.finds n q {i = j} f g) i k p e =
      ground (arith, listed n j g, lookup-erase n k s.client.handler)
  Step-held st i k p e = ground (arith, held i k p)

  Step-sent :
      {t : System}
      → Step ctx_done s t
      → (i : ℕ) → t.hand ≡ closes i
      → ((t.channel i).closed ≡ false)
        × (has_channel (t.phase i) ≡ true)
        × (lookup (invoke_id_of first i) t.client.handler ≢ some i)
  unfolding with_id
  Step-sent begins i e = ground (arith, sent i, has_begun inv i)
  Step-sent (Step.registers j {id} f) i e =
      ground
        (arith, sent i, tagged j id, lookup-insert id (invoke_id_of first i) j s.client.handler)
  Step-sent (Step.unregisters j {id} f) i e =
      ground (arith, sent i, lookup-erase id (invoke_id_of first i) s.client.handler)
  Step-sent (Step.sends {i = j} {k = n} {p = q} f c d) i e = ground (arith, held j n q f)
  Step-sent st i e = ground (arith, sent i)

  Step-given :
      {t : System}
      → Step ctx_done s t
      → (i : ℕ) → awaits (t.phase i) ≡ true
      → (t.channel i).content ≡ none
      → ((t.channel i).closed ≡ false) × (t.hand ≢ closes i)
  unfolding with_id
  Step-given (Step.finds n q {i = j} f g) i e c = ground (arith, given i)
  Step-given (Step.sends {i = j} {k = n} {p = q} f c d) i e g = ground (arith, given i)
  Step-given (Step.registers j {id} f) i e c = ground (arith, given i, sent i)
  Step-given (Step.closes_open {i = j} f d) i e c = ground (arith, given i)
  Step-given st i e c = ground (arith, moves st, given i)

  pub Step-Inv : {t : System} → Step ctx_done s t → Inv first t
  Step-Inv st = record {
    next = Step-next st;
    tagged = Step-tagged st;
    listed = Step-listed st;
    held = Step-held st;
    sent = Step-sent st;
    filled = Step-filled st;
    given = Step-given st;
    good = Step-Good st;
    sound = Step-sound st;
  }

start-Inv : (first : ℕ) → Inv first (fresh_system first)
unfolding fresh_id lookup
start-Inv first = record {
  next = ground arith;
  tagged = λ i id e. ground arith;
  listed = λ k i e. ground arith;
  held = λ i k p e. ground arith;
  sent = λ i e. ground arith;
  filled = λ i k p e. ground arith;
  given = λ i e c. ground arith;
  good = λ i. tt;
  sound = ground arith;
}

pub Reach-Inv : {ctx_done : Bool} {first : ℕ} {s : System} → Reach ctx_done first s → Inv first s
Reach-Inv {first} start = start-Inv first
Reach-Inv (later r st) = Step-Inv (Reach-Inv r) st
