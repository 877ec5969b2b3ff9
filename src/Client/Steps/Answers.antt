-- ===== src/Client/Steps/Answers.antt =====
-- Where the response to a call of `send` may be found, and the steps that lead from there to its
-- return.
use goads.Base.{
  ℕ, ◌^◌, ◌≤◌, ◌<◌, ◌≡◌, ◌≢◌, ◌⊎◌, inl, inr, Bool, true, false, Option, none, some, arith, refl, ap,
  ◌∙◌, Option-cases,
}
use goads.Base.Assoc.{lookup, lookup-erase, lookup-insert}
use goads.Ams.Packet.{Packet}
use goads.Client.Send.{with_id}
use goads.Client.Steps
use goads.Client.Steps.{
  answered, waiting, returned, Hand, takes, gives, closes, stopped, crashed, System, Step, Reach,
  start, later, Steps, here, onward,
}
use goads.Client.Steps.Invariant.{
  invoke_id_of, Inv, Reach-Inv, Step-Inv, awaits, id_of, has_begun, moves,
}

-- The channel that `receive` is about to send to.
abbrev pub in_hand : Hand → Option ℕ
in_hand (gives i k p) = some i
in_hand _ = none

invoke_id_of-distinct :
    (first i j n : ℕ)
    → i < n
    → j < n
    → n ≤ 2 ^ 32
    → invoke_id_of first i ≡ invoke_id_of first j
    → i ≡ j
invoke_id_of-distinct first i j n a b c e = omega arith

-- Where the response to a call may be found.
abbrev pub Pending : ℕ → System → ℕ → Type 0
Pending n s i =
    (lookup n s.client.handler ≡ some i)
    ⊎ (in_hand s.hand ≡ some i)
    ⊎ ((s.channel i).content ≢ none)

module _ {first : ℕ} {s : System} (inv : Inv first s) (i : ℕ) where
  open inv use {held, listed, sent, tagged}

  Step-Pending :
      {t : System}
      → Step false s t
      → t.begun ≤ 2 ^ 32
      → (awaits (s.phase i) ≡ true → Pending (invoke_id_of first i) s i)
      → awaits (t.phase i) ≡ true
      → Pending (invoke_id_of first i) t i
  unfolding with_id
  Step-Pending Step.begins few rest w = ground (arith, rest, has_begun inv i)
  Step-Pending (Step.registers j {id} e) few rest w = ground (
    arith,
    rest,
    lookup-insert id (invoke_id_of first i) j s.client.handler,
    tagged j id,
    has_begun inv i,
    invoke_id_of-distinct first i j s.begun,
  )
  Step-Pending (Step.unregisters j {id} e) few rest w = ground (
    arith,
    rest,
    lookup-erase id (invoke_id_of first i) s.client.handler,
    tagged j id,
    has_begun inv i,
    invoke_id_of-distinct first i j s.begun,
  )
  Step-Pending (Step.drops m e f) few rest w =
      ground (arith, rest, lookup-erase m (invoke_id_of first i) s.client.handler)
  Step-Pending (Step.finds m q {i = j} e f) few rest w =
      ground (arith, rest, lookup-erase m (invoke_id_of first i) s.client.handler)
  Step-Pending (Step.sends {i = j} {k = m} {p = q} e c d) few rest w = ground (arith, rest)
  Step-Pending (Step.sends_closed {i = j} {k = m} {p = q} e c) few rest w =
      ground (arith, rest, held j m q e)
  Step-Pending st few rest w = ground (arith, rest, moves st)

Step-begun : {b : Bool} {s t : System} → Step b s t → s.begun ≤ t.begun
unfolding with_id
Step-begun Step.begins = omega arith
Step-begun st = omega arith

Reach-Pending :
    {first : ℕ} {s : System}
    → Reach false first s
    → s.begun ≤ 2 ^ 32
    → (i : ℕ) → awaits (s.phase i) ≡ true
    → Pending (invoke_id_of first i) s i
Reach-Pending start few i w = ground arith
Reach-Pending (later {s} r st) few i w =
    let rest : awaits (s.phase i) ≡ true → Pending (invoke_id_of _ i) s i =
      Reach-Pending r (omega (arith, few, Step-begun st)) i in
    Step-Pending (Reach-Inv r) i st few rest w

-- Steps that answer a call: with the packet that comes next, or with what is on its way.
abbrev pub Answerable : Packet → System → ℕ → ℕ → Type 0
Answerable p s i id =
    (t : System) × (q : Packet) × Steps false s t
    × (t.phase i ≡ returned id (answered id q))
    × ((q ≡ p) ⊎ (s.hand ≡ gives i id q) ⊎ ((s.channel i).content ≡ some (id, q)))

module _ {first : ℕ} (p : Packet) (i id : ℕ) where
  from_channel :
      {s : System} {k : ℕ} {q : Packet}
      → Inv first s
      → s.phase i ≡ waiting id
      → (s.channel i).content ≡ some (k, q)
      → Answerable p s i id
  from_channel {s} {k} {q} inv w c =
      let same : k ≡ id = omega (arith, inv.filled i k q c, (inv.tagged i id (ap id_of w)).0) in
      (_, q, onward (Step.gets i w c) here, ground arith, ground arith)

  from_hand :
      {s : System} {k : ℕ} {q : Packet}
      → Inv first s
      → s.phase i ≡ waiting id
      → s.hand ≡ gives i k q
      → Answerable p s i id
  from_hand {s} {k} {q} inv w h =
      let (a, b, empty, d) = inv.held i k q h in
      let same : k ≡ id = omega (arith, a, (inv.tagged i id (ap id_of w)).0) in
      let st : Step false s (Steps.give s i k q) = Step.sends h empty.1 empty.0 in
      let (t, r, sts, e, f) = from_channel {k = k} {q = q} (Step-Inv inv st) w (ground arith) in
      (t, r, onward st sts, e, ground arith)

  from_map :
      {s : System}
      → Inv first s
      → s.phase i ≡ waiting id
      → s.hand ≡ takes
      → lookup id s.client.handler ≡ some i
      → Answerable p s i id
  from_map {s} inv w h l =
      let st : Step false s (Steps.look_up s id (gives i id p)) = Step.finds id p h l in
      let (t, r, sts, e, f) = from_hand (Step-Inv inv st) w refl in
      (t, r, onward st sts, e, ground (arith, inv.listed id i l))

  module _ {s : System} (inv : Inv first s) (w : s.phase i ≡ waiting id) where
    after_close :
        {j : ℕ} → s.hand ≡ closes j → lookup id s.client.handler ≡ some i → Answerable p s i id
    after_close {j} h l =
        let st : Step false s (Steps.close s j) = Step.closes_open h (inv.sent j h).0 in
        let (t, r, sts, e, f) = from_map (Step-Inv inv st) w refl l in
        (t, r, onward st sts, e, ground (arith, inv.listed id i l))

  after_give :
      {s : System} {j k : ℕ} {q : Packet}
      → Inv first s
      → s.phase i ≡ waiting id
      → s.hand ≡ gives j k q
      → lookup id s.client.handler ≡ some i
      → Answerable p s i id
  after_give {s} {j} {k} {q} inv w h l =
      let (a, b, empty, d) = inv.held j k q h in
      let st : Step false s (Steps.give s j k q) = Step.sends h empty.1 empty.0 in
      let (t, r, sts, e, f) = after_close (Step-Inv inv st) w refl l in
      (t, r, onward st sts, e, ground (arith, inv.listed id i l, d, a))

  in_map :
      {s : System}
      → Inv first s
      → s.phase i ≡ waiting id
      → lookup id s.client.handler ≡ some i
      → (h : Hand) → s.hand ≡ h
      → h ≢ stopped
      → Answerable p s i id
  in_map inv w l takes e runs = from_map inv w e l
  in_map inv w l (gives j k q) e runs = after_give inv w e l
  in_map inv w l (closes j) e runs = after_close inv w e l
  in_map inv w l stopped e runs = absurd (runs refl)
  in_map inv w l crashed e runs = absurd (inv.sound e)

  in_flight :
      {s : System}
      → Inv first s
      → s.phase i ≡ waiting id
      → (h : Hand) → s.hand ≡ h
      → in_hand h ≡ some i
      → Answerable p s i id
  in_flight inv w (gives j k q) e f = from_hand {k = k} {q = q} inv w (ground arith)
  in_flight inv w _ e f = absurd (ground arith)

  in_channel :
      {s : System}
      → Inv first s
      → s.phase i ≡ waiting id
      → (s.channel i).content ≢ none
      → Answerable p s i id
  in_channel {s} inv w full = elim (Option-cases (s.channel i).content) [
    | inl empty ↦ absurd (full empty)
    | inr ((k, q), e) ↦ from_channel inv w e
  ]

-- While the context of `receive` is not done, `receive` has not returned and the client has made at
-- most 2 ^ 32 calls: from every state that can come to be, steps lead to one in which a call that
-- waits has returned a response with its invoke id. That is the next packet with this id, or the one
-- that `receive` holds for the call or that stands in its channel.
pub waiting-Answerable :
    {first : ℕ} {s : System} {i id : ℕ} (p : Packet)
    → Reach false first s
    → s.begun ≤ 2 ^ 32
    → s.hand ≢ stopped
    → s.phase i ≡ waiting id
    → Answerable p s i id
waiting-Answerable {first} {s} {i} {id} p r few runs w =
    let inv = Reach-Inv r in
    let own : id ≡ invoke_id_of first i = (inv.tagged i id (ap id_of w)).0 in
    elim (Reach-Pending r few i (ap awaits w)) [
      | inl l ↦ in_map p i id inv w (ap (λ n. lookup n s.client.handler) own ∙ l) s.hand refl runs
      | inr (inl h) ↦ in_flight p i id inv w s.hand refl h
      | inr (inr c) ↦ in_channel p i id inv w c
    ]
