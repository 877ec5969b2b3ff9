-- ===== src/Subscription/Workers.antt =====
-- notification.go, `Start`, `Stop` and the goroutine `processNotifications` that each `Start` makes,
-- with their steps in any order. A critical section of `nm.mu` and a call of
-- `SetNotificationCallback` are one step each.
pub mod Restart
use goads.Base.{ℕ, ◌+◌, ◌<◌, ◌≡◌, Bool, true, false, some}
use goads.Base.Family.{update}
use goads.Subscription.{Manager, new_manager, start, stop}

-- How far a goroutine is: it is about to set the callback, to read `nm.stopCh`, it waits for that
-- channel, it is about to clear the callback, or it has ended.
pub data Worker : Type 0 where
  absent setting listening : Worker
  waiting : ℕ → Worker
  clearing ended : Worker

-- `stop_ch` is the channel `nm.stopCh`, and `closed` says which channels are. Goroutine `i` is the one
-- of the `i`-th `Start`, from 0 on, which makes channel `i + 1`. `callback` says whether the client
-- has the manager's callback.
pub record System : Type 0 where
  pub manager : Manager
  pub stop_ch : ℕ
  pub closed : ℕ → Bool
  pub callback : Bool
  pub begun : ℕ
  pub worker : ℕ → Worker

abbrev pub with_worker : System → ℕ → Worker → System
with_worker s i w = record s { worker = update s.worker i w }

-- A new manager of a client without a callback.
abbrev pub fresh_system : System
fresh_system = record {
  manager = new_manager;
  stop_ch = 0;
  closed = λ _. false;
  callback = false;
  begun = 0;
  worker = λ _. absent;
}

-- `Start` that is not refused
abbrev pub start_worker : System → Manager → System
start_worker s m = record s {
  manager = m;
  stop_ch = s.begun + 1;
  closed = update s.closed (s.begun + 1) false;
  begun = s.begun + 1;
  worker = update s.worker s.begun setting;
}

-- `Stop` of a manager that runs
abbrev pub stop_worker : System → System
stop_worker s = record s { manager = stop s.manager; closed = update s.closed s.stop_ch true }

-- One after another: a `Start` comes when the goroutines before it have ended.
abbrev pub Orderly : Bool → System → Type 0
Orderly true s = (i : ℕ) → i < s.begun → s.worker i ≡ ended
Orderly false s = Unit

pub data Step (orderly : Bool) (s : System) : System → Type 0 where
  starts :
      {m : Manager}
      → start s.manager ≡ some m
      → Orderly orderly s
      → Step orderly s (start_worker s m)
  stops : s.manager.running ≡ true → Step orderly s (stop_worker s)
  sets :
      (i : ℕ)
      → s.worker i ≡ setting
      → Step orderly s (record (with_worker s i listening) { callback = true })
  listens : (i : ℕ) → s.worker i ≡ listening → Step orderly s (with_worker s i (waiting s.stop_ch))
  wakes :
      (i : ℕ) {ch : ℕ}
      → s.worker i ≡ waiting ch
      → s.closed ch ≡ true
      → Step orderly s (with_worker s i clearing)
  clears :
      (i : ℕ)
      → s.worker i ≡ clearing
      → Step orderly s (record (with_worker s i ended) { callback = false })

pub data Reach (orderly : Bool) : System → Type 0 where
  begin : Reach orderly fresh_system
  later : {s t : System} → Reach orderly s → Step orderly s t → Reach orderly t
