-- ===== src/Subscription/Kept.antt =====
-- What the steps of a manager's operations keep of the manager.
use goads.Base.{ℕ, ◌==◌, Option, none, some, Bool-cases, inl, inr}
use goads.Base.Int.{ℤ}
use goads.Ams.Addr.{Addr}
use goads.Link.{Link, Reply, ok, failed, crashed, Task, follow, or_fail}
use goads.Session.{SymbolInfo}
use goads.Session.Operations.{Cached}
use goads.Subscription.{Manager, Managed, on_session, no_error_or_fail, request_notification}

-- A result whose manager has a property.
pub data Keeps {D A : Type 0} (P : Manager → Type 0) : Reply A × Managed D → Type 0 where
  keep : (reply : Reply A) (w : Managed D) → P w.0 → Keeps P (reply, w)

pub kept : {D A : Type 0} {P : Manager → Type 0} {y : Reply A × Managed D} → Keeps P y → P y.1.0
kept (keep reply w p) = p

-- What holds of the manager through each step holds of it behind all.
pub Keeps-follow :
    {D A B : Type 0} {P : Manager → Type 0} (x : Reply A × Managed D) (f : A → Task (Managed D) B)
    → Keeps P x
    → ((a : A) (w : Managed D) → P w.0 → Keeps P (f a w))
    → Keeps P (follow x f)
Keeps-follow (ok a, w) f k rest = rest a w (kept k)
Keeps-follow (failed, w) f k rest = keep _ w (kept k)
Keeps-follow (crashed, w) f k rest = keep _ w (kept k)

pub Keeps-no_error :
    {D : Type 0} {P : Manager → Type 0} (result : ℕ) (w : Managed D)
    → P w.0
    → Keeps P (no_error_or_fail result w)
Keeps-no_error result w p = elim (Bool-cases (result == 0)) [
  | inl fine ↦ rw fine ((keep _ _ p))
  | inr wrong ↦ rw wrong ((keep _ _ p))
]

pub Keeps-or_fail :
    {D A : Type 0} {P : Manager → Type 0} (o : Option A) (w : Managed D)
    → P w.0
    → Keeps P (or_fail o w)
Keeps-or_fail (some a) w p = (keep _ _ p)
Keeps-or_fail none w p = (keep _ _ p)

pub Keeps-on_session :
    {D A : Type 0} {P : Manager → Type 0} (task : Task (Cached D) A) (w : Managed D)
    → P w.0
    → Keeps P (on_session task w)
Keeps-on_session task w p = keep _ _ p

module _ {D : Type 0} (link : Link D) (target sender : Addr) where
  pub Keeps-request :
      {P : Manager → Type 0} (info : SymbolInfo) (cycle_time : ℤ) (w : Managed D)
      → P w.0
      → Keeps P (request_notification link target sender info cycle_time w)
  unfolding request_notification
  Keeps-request info cycle_time w p = keep _ _ p
