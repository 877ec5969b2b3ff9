-- ===== src/Client/Steps/Progress.antt =====
-- The way of a response from `receive` to the call of `send` that waits for it.
use goads.Base.{ℕ, ◌≡◌, ◌⊎◌, false, some, arith}
use goads.Ams.Packet.{Packet}
use goads.Client.Send.{with_id}
use goads.Client.Steps.{
  Channel, answered, timed_out, cancelled, Phase, waiting, returned, Hand, gives, System, Step,
  Reach, Steps, here, onward,
}
use goads.Client.Steps.Invariant.{Inv, Reach-Inv, Step-Inv, has_begun, moves}

-- What became of a response that `receive` took for a call: it is on its way, or the call has
-- returned it or given up before.
abbrev pub Kept : ℕ → ℕ → Packet → Phase → Channel → Hand → Type 0
Kept i k p (returned _ v) c h = (v ≡ answered k p) ⊎ (v ≡ timed_out) ⊎ (v ≡ cancelled)
Kept i k p (waiting _) c h = (h ≡ gives i k p) ⊎ (c.content ≡ some (k, p))
Kept i k p _ c h = ⊥

module _ {first : ℕ} {s : System} (inv : Inv first s) (i k : ℕ) (p : Packet) where
  open inv use {held, listed, sent}

  Step-Kept :
      {t : System}
      → Step false s t
      → Kept i k p (s.phase i) (s.channel i) s.hand
      → Kept i k p (t.phase i) (t.channel i) t.hand
  unfolding with_id
  Step-Kept Step.begins kept = ground (arith, kept, has_begun inv i)
  Step-Kept (Step.gets j {id} {k = m} {p = q} e c) kept = ground (arith, kept, held i k p)
  Step-Kept (Step.gets_nil j {id} e c d) kept = ground (arith, kept, inv.given i, held i k p)
  Step-Kept (Step.registers j e) kept = ground (arith, kept, held i k p)
  Step-Kept (Step.sends {i = j} {k = m} {p = q} e c d) kept = ground (arith, kept)
  Step-Kept (Step.finds m q {i = j} e f) kept = ground (arith, kept)
  Step-Kept (Step.sends_closed {i = j} {k = m} {p = q} e c) kept =
      ground (arith, kept, held j m q e)
  Step-Kept st kept = ground (arith, kept, moves st)

Steps-Kept :
    {first : ℕ} {s t : System}
    → Inv first s
    → (i k : ℕ) (p : Packet) → Steps false s t
    → Kept i k p (s.phase i) (s.channel i) s.hand
    → Kept i k p (t.phase i) (t.channel i) t.hand
Steps-Kept inv i k p here kept = kept
Steps-Kept inv i k p (onward st sts) kept =
    Steps-Kept (Step-Inv inv st) i k p sts (Step-Kept inv i k p st kept)

-- While the context of `receive` is not done: behind any steps from a state in which `receive` has
-- taken a response for a call that waits, the call still waits and the response is in the hand of
-- `receive` or in the call's channel, or the call has returned that response, unless it timed out or
-- was cancelled.
pub response-Kept :
    {first : ℕ} {s t : System} {i id k : ℕ} {p : Packet}
    → Reach false first s
    → s.phase i ≡ waiting id
    → s.hand ≡ gives i k p
    → Steps false s t
    → Kept i k p (t.phase i) (t.channel i) t.hand
response-Kept {i} {k} {p} r waits has sts = Steps-Kept (Reach-Inv r) i k p sts (ground arith)
