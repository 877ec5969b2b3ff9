-- ===== src/Subscription/Owner.antt =====
-- session.go: a new session, and its own notification manager, which is made when it is first asked
-- for.
pub mod AddRemove
use goads.Base.{ℕ, Option, none, some, List}
use goads.Base.Int.{ℤ}
use goads.Ams.Addr.{Addr}
use goads.Link.{Link, failed, Task}
use goads.Session.{new_symbol_registry}
use goads.Session.Operations.{Cached}
use goads.Subscription.{Manager, Managed, new_manager, start, subscribe, unsubscribe}

-- A session with its manager, `none` where that is nil.
abbrev pub Owned : Type 0 → Type 0
Owned D = Option Manager × Cached D

-- `NewSession`
abbrev pub new_session : {D : Type 0} → D → Owned D
new_session d = (none, (new_symbol_registry, d))

-- The error of `Start` is printed, and the manager is kept.
abbrev pub keep_manager : Manager → Option Manager → Manager
keep_manager m none = m
keep_manager m (some started) = started

-- `GetOrCreateNotificationManager`
unfoldable pub get_or_create : Option Manager → Manager
unfolding start
get_or_create none = keep_manager new_manager (start new_manager)
get_or_create (some m) = m

-- An operation of the manager that the session has.
abbrev pub on_manager : {D A : Type 0} → Manager → Task (Managed D) A → Task (Owned D) A
on_manager m task (_, w) = let (reply, (m', w')) = task (m, w) in (reply, (some m', w'))

module _ {D : Type 0} (link : Link D) (target sender : Addr) where
  -- `AddSymbolNotification`
  unfoldable pub add_symbol_notification : List ℕ → ℤ → Option ℕ → Task (Owned D) ℕ
  unfolding get_or_create subscribe
  add_symbol_notification name cycle_time callback (m, w) =
      on_manager (get_or_create m) (subscribe link target sender name cycle_time callback) (m, w)

  -- `RemoveSymbolNotification`
  unfoldable pub remove_symbol_notification : ℕ → Task (Owned D) Unit
  unfolding unsubscribe
  remove_symbol_notification h (none, w) = (failed, (none, w))
  remove_symbol_notification h (some m, w) =
      on_manager m (unsubscribe link target sender h) (some m, w)
