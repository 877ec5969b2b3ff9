-- ===== src/Subscription/Owner/AddRemove.antt =====
-- A notification that a session adds and removes again.
use goads.Base.{ℕ, Bool, true, Option, none, some, List, []}
use goads.Ams.Addr.{Addr}
use goads.Ams.Notification.{DeviceNotificationRequest}
use goads.Link.{Link}
use goads.Subscription.{Called, Handler, Manager, process}
use goads.Subscription.Delivery.{callback_of}

abbrev pub handlers_of : Option Manager → List (ℕ × Handler)
handlers_of none = []
handlers_of (some m) = m.handlers

-- Whether the manager runs that a session has once it is asked for one: a new one does.
abbrev pub runs_when_asked : Option Manager → Bool
runs_when_asked none = true
runs_when_asked (some m) = m.running

-- The callbacks of the handles in a session.
abbrev pub callbacks : Option Manager → ℕ → Option ℕ
callbacks o = callback_of (handlers_of o)

-- The calls that a notification leads to in a session.
abbrev pub calls : (Called → Bool) → Option Manager → DeviceNotificationRequest → List Called
calls panics o req = process panics (handlers_of o) req
