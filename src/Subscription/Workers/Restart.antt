-- ===== src/Subscription/Workers/Restart.antt =====
-- A manager that is started again only when its goroutines have ended.
use goads.Base.{
  ℕ, zero, suc, ◌+◌, ◌≤◌, ◌<◌, ◌≡◌, ◌≢◌, ◌⊎◌, inl, inr, refl, arith, Bool, true, false,
}
use goads.Subscription.{start, stop}
use goads.Subscription.Workers.{
  fresh_system, Worker, absent, setting, listening, waiting, clearing, ended, System, Step, starts,
  stops, sets, listens, wakes, clears, Reach, begin, later,
}

record Inv (s : System) : Type 0 where
  quiet : (i : ℕ) → i + 1 < s.begun → s.worker i ≡ ended
  beyond : (i : ℕ) → s.begun ≤ i → s.worker i ≡ absent
  present : (i : ℕ) → i < s.begun → s.worker i ≢ absent
  serving : (i : ℕ) → s.worker i ≡ listening → s.callback ≡ true
  waits : (i ch : ℕ) → s.worker i ≡ waiting ch → (s.callback ≡ true) × (ch ≡ s.stop_ch)
  stopping : (i : ℕ) → s.worker i ≡ clearing → s.manager.running ≡ false
  over :
      (i : ℕ)
      → i + 1 ≡ s.begun
      → s.worker i ≡ ended
      → (s.manager.running ≡ false) × (s.callback ≡ false)
  runs : s.manager.running ≡ true → s.closed s.stop_ch ≡ false
  halted : s.manager.running ≡ false → (s.begun ≡ 0) ⊎ (s.closed s.stop_ch ≡ true)
  unused : s.begun ≡ 0 → (s.callback ≡ false) × (s.manager.running ≡ false)

-- What a step asks of the goroutine that takes it.
abbrev Moves : {b : Bool} {s t : System} → Step b s t → Type 0
Moves {s} (sets i _) = s.worker i ≡ setting
Moves {s} (listens i _) = s.worker i ≡ listening
Moves {s} (wakes i {ch} _ _) = (s.worker i ≡ waiting ch) × (s.closed ch ≡ true)
Moves {s} (clears i _) = s.worker i ≡ clearing
Moves {s} (stops _) = s.manager.running ≡ true
Moves _ = Unit

moves : {b : Bool} {s t : System} (st : Step b s t) → Moves st
moves (sets i e) = e
moves (listens i e) = e
moves (wakes i e c) = (e, c)
moves (clears i e) = e
moves (stops e) = e
moves _ = tt

module _ {s : System} (inv : Inv s) where
  open inv use {quiet, beyond, present, serving, waits, stopping, over, runs, halted, unused}

  Step-quiet : {t : System} → Step true s t → (i : ℕ) → i + 1 < t.begun → t.worker i ≡ ended
  unfolding start stop
  Step-quiet (starts e all_ended) i l = ground (arith, all_ended i)
  Step-quiet st i l = ground (arith, moves st, quiet i)

  Step-beyond : {t : System} → Step true s t → (i : ℕ) → t.begun ≤ i → t.worker i ≡ absent
  unfolding start stop
  Step-beyond (starts e all_ended) i l = ground (arith, beyond i)
  Step-beyond (stops e) i l = beyond i l
  Step-beyond (sets j e) i l = ground (arith, beyond i, beyond j)
  Step-beyond (listens j e) i l = ground (arith, beyond i, beyond j)
  Step-beyond (wakes j e c) i l = ground (arith, beyond i, beyond j)
  Step-beyond (clears j e) i l = ground (arith, beyond i, beyond j)

  Step-present : {t : System} → Step true s t → (i : ℕ) → i < t.begun → t.worker i ≢ absent
  unfolding start stop
  Step-present (starts e all_ended) i l = ground (arith, present i)
  Step-present (stops e) i l = present i l
  Step-present (sets j e) i l = ground (arith, present i)
  Step-present (listens j e) i l = ground (arith, present i)
  Step-present (wakes j e c) i l = ground (arith, present i)
  Step-present (clears j e) i l = ground (arith, present i)

  Step-serving : {t : System} → Step true s t → (i : ℕ) → t.worker i ≡ listening → t.callback ≡ true
  unfolding start stop
  Step-serving (clears j f) i e = ground (arith, serving i, quiet i, beyond i, quiet j, beyond j)
  Step-serving st i e = ground (arith, moves st, serving i)

  Step-waits :
      {t : System}
      → Step true s t
      → (i ch : ℕ) → t.worker i ≡ waiting ch
      → (t.callback ≡ true) × (ch ≡ t.stop_ch)
  unfolding start stop
  Step-waits (starts e all_ended) i ch f = ground (arith, all_ended i, beyond i)
  Step-waits (listens j e) i ch f = ground (arith, waits i ch, serving j e)
  Step-waits (clears j e) i ch f = ground (arith, waits i ch, quiet i, beyond i, quiet j, beyond j)
  Step-waits st i ch f = ground (arith, moves st, waits i ch)

  Step-stopping :
      {t : System} → Step true s t → (i : ℕ) → t.worker i ≡ clearing → t.manager.running ≡ false
  unfolding start stop
  Step-stopping (starts e all_ended) i f = ground (arith, all_ended i, beyond i)
  Step-stopping (wakes j {ch} e c) i f = ground (arith, stopping i, waits j ch e, runs)
  Step-stopping st i f = ground (arith, moves st, stopping i)

  Step-over :
      {t : System}
      → Step true s t
      → (i : ℕ) → i + 1 ≡ t.begun
      → t.worker i ≡ ended
      → (t.manager.running ≡ false) × (t.callback ≡ false)
  unfolding start stop
  Step-over (starts e all_ended) i l f = ground arith
  Step-over (sets j e) i l f = ground (arith, over i, quiet j, beyond j)
  Step-over (clears j e) i l f = ground (arith, over i, stopping j e)
  Step-over st i l f = ground (arith, moves st, over i)

  Step-runs : {t : System} → Step true s t → t.manager.running ≡ true → t.closed t.stop_ch ≡ false
  unfolding start stop
  Step-runs (starts e all_ended) f = ground arith
  Step-runs st f = ground (arith, moves st, runs)

  Step-halted :
      {t : System}
      → Step true s t
      → t.manager.running ≡ false
      → (t.begun ≡ 0) ⊎ (t.closed t.stop_ch ≡ true)
  unfolding start stop
  Step-halted (starts e all_ended) f = ground arith
  Step-halted st f = ground (arith, moves st, halted)

  Step-unused :
      {t : System}
      → Step true s t
      → t.begun ≡ 0
      → (t.callback ≡ false) × (t.manager.running ≡ false)
  unfolding start stop
  Step-unused (starts e all_ended) z = ground arith
  Step-unused (stops e) z = ground (arith, unused)
  Step-unused (sets j e) z = ground (arith, unused, beyond j)
  Step-unused st z = ground (arith, moves st, unused)

  Step-Inv : {t : System} → Step true s t → Inv t
  Step-Inv st = record {
    quiet = Step-quiet st;
    beyond = Step-beyond st;
    present = Step-present st;
    serving = Step-serving st;
    waits = Step-waits st;
    stopping = Step-stopping st;
    over = Step-over st;
    runs = Step-runs st;
    halted = Step-halted st;
    unused = Step-unused st;
  }

begin-Inv : Inv fresh_system
begin-Inv = record {
  quiet = λ i l. ground arith;
  beyond = λ i l. refl;
  present = λ i l. ground arith;
  serving = λ i e. ground arith;
  waits = λ i ch e. ground arith;
  stopping = λ i e. refl;
  over = λ i l e. (refl, refl);
  runs = λ e. refl;
  halted = λ e. inl refl;
  unused = λ e. (refl, refl);
}

Reach-Inv : {s : System} → Reach true s → Inv s
Reach-Inv begin = begin-Inv
Reach-Inv (later r st) = Step-Inv (Reach-Inv r) st

-- A goroutine that cannot take a step.
abbrev pub Still : (ℕ → Bool) → Worker → Type 0
Still closed absent = Unit
Still closed (waiting ch) = closed ch ≡ false
Still closed ended = Unit
Still closed _ = ⊥

-- The goroutine of the last start decides.
last-Still :
    {s : System} {n : ℕ} (inv : Inv s) (w : Worker)
    → s.begun ≡ n + 1
    → s.worker n ≡ w
    → Still s.closed w
    → s.callback ≡ s.manager.running
last-Still {s} {n} inv absent b e still = absurd (inv.present n (omega arith) e)
last-Still {s} {n} inv (waiting ch) b e still =
    ground (arith, inv.waits n ch e, inv.halted, inv.runs)
last-Still {s} {n} inv ended b e still = ground (arith, inv.over n (omega arith) e)
last-Still {s} {n} inv _ b e still = absurd still

first_or_more : (n : ℕ) → (n ≡ 0) ⊎ ((m : ℕ) × (n ≡ m + 1))
first_or_more zero = inl refl
first_or_more (suc n) = inr (n, omega arith)

-- Where the manager is started again only when the goroutines of its earlier starts have ended: in
-- every state that can come to be in which no goroutine can take a step, the client has the manager's
-- callback where the manager runs, and has none where it does not.
pub callback-running :
    {s : System}
    → Reach true s
    → ((i : ℕ) → Still s.closed (s.worker i))
    → s.callback ≡ s.manager.running
callback-running {s} r still = elim (first_or_more s.begun) [
  | inl none_begun ↦ ground (arith, (Reach-Inv r).unused none_begun)
  | inr (n, b) ↦ last-Still (Reach-Inv r) (s.worker n) b refl (still n)
]
