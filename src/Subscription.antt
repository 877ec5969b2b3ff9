-- ===== src/Subscription.antt =====
-- notification.go: the manager of a session's notifications. A callback is a number here, or `none`
-- where it is nil.
pub mod Callbacks
pub mod Delivery
pub mod Kept
pub mod Modes
pub mod Owner
pub mod Workers
pub mod Arrivals
use goads.Base.{ℕ, ◌==◌, Bool, true, false, Option, none, some, List, [], ◌∷◌, ◌++◌, if◌then◌else◌}
use goads.Base.Assoc.{lookup, erase, insert}
use goads.Base.Int.{ℤ, signed, low_bits, quot, rem, times, minus}
use goads.Ams.Addr.{Addr}
use goads.Ams.AddNotification.{AddNotificationResponse, new_add_notification_request}
use goads.Ams.DeleteNotification.{DeleteNotificationResponse, new_delete_notification_request}
use goads.Ams.Notification.{NotificationSample, NotificationStamp, DeviceNotificationRequest}
use goads.Link.{Link, Reply, ok, failed, crashed, Task, ◌>>=◌, ◌>>◌, pure, fail, call, or_fail}
use goads.Session.{SymbolInfo, get}
use goads.Subscription.Modes.{trans_mode_server_on_change}
use goads.Session.Operations.{Cached, on_device, registry, session_handle}

-- `notificationHandler`
pub record Handler : Type 0 where
  pub handle : ℕ
  pub var_name : List ℕ
  pub var_handle : ℕ
  pub callback : Option ℕ
  pub symbol_info : SymbolInfo

-- `NotificationManager`, less its session and its channel
pub record Manager : Type 0 where
  pub handlers : List (ℕ × Handler)
  pub running : Bool

-- `NewNotificationManager`
abbrev pub new_manager : Manager
new_manager = record { handlers = []; running = false }

-- A manager and its session
abbrev pub Managed : Type 0 → Type 0
Managed D = Manager × Cached D

abbrev pub on_session : {D A : Type 0} → Task (Cached D) A → Task (Managed D) A
on_session task (m, w) = let (reply, w') = task w in (reply, (m, w'))

-- `nm.handlers[h] = handler` and `delete(nm.handlers, h)`
abbrev pub add_handler : {D : Type 0} → ℕ → Handler → Task (Managed D) Unit
add_handler h handler (m, w) = (ok tt, (record m { handlers = insert h handler m.handlers }, w))

abbrev pub drop_handler : {D : Type 0} → ℕ → Task (Managed D) Unit
drop_handler h (m, w) = (ok tt, (record m { handlers = erase h m.handlers }, w))

abbrev pub find_handler : {D : Type 0} → ℕ → Task (Managed D) Handler
find_handler h (m, w) = or_fail (lookup h m.handlers) (m, w)

-- `if resp.Result != ams.NoError { return … }`
abbrev pub no_error_or_fail : {W : Type 0} → ℕ → Task W Unit
no_error_or_fail result = if result == 0 then pure tt else fail

-- `uint32(cycleTime.Nanoseconds() / 100)`
unfoldable pub ticks : ℤ → ℕ
unfolding quot low_bits
ticks nanoseconds = low_bits 4294967296 (quot nanoseconds 100)

-- The last error that there was.
abbrev pub keep_last : Reply Unit → Reply Unit → Reply Unit
keep_last first (ok _) = first
keep_last first failed = failed
keep_last first crashed = crashed

abbrev pub keys : List (ℕ × Handler) → List ℕ
keys [] = []
keys ((h, handler) ∷ m) = h ∷ keys m

module _ {D : Type 0} (link : Link D) (target sender : Addr) where
  -- The request of `Subscribe`
  unfoldable pub request_notification : SymbolInfo → ℤ → Task (Managed D) AddNotificationResponse
  unfolding ticks
  request_notification info cycle_time = on_session (
      on_device (
        call (
          link.add_notification (
            new_add_notification_request target sender info.index_group info.index_offset info.size
              trans_mode_server_on_change (ticks cycle_time) (ticks cycle_time)))))

  -- `Subscribe`
  unfoldable pub subscribe : List ℕ → ℤ → Option ℕ → Task (Managed D) ℕ
  unfolding session_handle get insert request_notification
  subscribe name cycle_time callback = do
    handle ← on_session (session_handle link target sender name)
    symbols ← on_session registry
    info ← or_fail (get symbols name)
    resp ← request_notification info cycle_time
    no_error_or_fail resp.result
    add_handler resp.notification_handle (record {
      handle = resp.notification_handle;
      var_name = name;
      var_handle = handle;
      callback = callback;
      symbol_info = info;
    })
    pure resp.notification_handle

  -- The request of `Unsubscribe`
  abbrev pub deletion : ℕ → Task (Cached D) DeleteNotificationResponse
  deletion h =
      on_device (call (link.delete_notification (new_delete_notification_request target sender h)))

  -- `Unsubscribe`: the handler is gone even where the device refuses.
  unfoldable pub unsubscribe : ℕ → Task (Managed D) Unit
  unfolding lookup erase
  unsubscribe h = do
    handler ← find_handler h
    drop_handler h
    resp ← on_session (deletion h)
    no_error_or_fail resp.result

  -- The loop of `UnsubscribeAll`, on the handles in the order in which the map gave them.
  unfoldable pub unsubscribe_each : List ℕ → Reply Unit → Task (Managed D) Unit
  unfolding unsubscribe
  unsubscribe_each [] last w = (last, w)
  unsubscribe_each (h ∷ hs) last w =
      let (reply, w') = unsubscribe h w in unsubscribe_each hs (keep_last last reply) w'

  -- `UnsubscribeAll`
  unfoldable pub unsubscribe_all : Task (Managed D) Unit
  unfolding unsubscribe_each
  unsubscribe_all (m, w) = unsubscribe_each (keys m.handlers) (ok tt) (m, w)

-- `Start` and `Stop`, less the goroutine: `none` is the error of a second start.
unfoldable pub start : Manager → Option Manager
start m = if m.running then none else some (record m { running = true })

unfoldable pub stop : Manager → Manager
stop m = if m.running then record m { running = false } else m

-- `time.Unix(secs, nsecs)` of a Windows FILETIME
unfoldable pub unix_time : ℕ → ℤ × ℤ
unfolding signed quot rem times minus
unix_time timestamp =
    let ticks_since_1601 = signed 9223372036854775808 timestamp in
    (minus (quot ticks_since_1601 10000000) 11644473600, times (rem ticks_since_1601 10000000) 100)

-- A call of a user's callback: which one, and the sample that it gets.
pub record Called : Type 0 where
  pub callback : ℕ
  pub handle : ℕ
  pub timestamp : ℤ × ℤ
  pub payload : List ℕ

-- What the closure has done so far: the calls of users' callbacks, and whether the last one has
-- panicked.
pub record Delivered : Type 0 where
  pub calls : List Called
  pub panicked : Bool

-- What stands behind a panic does not run.
abbrev pub unless_panicked : Delivered → Delivered → Delivered
unless_panicked first rest =
    if first.panicked
    then first
    else record { calls = first.calls ++ rest.calls; panicked = rest.panicked }

abbrev pub no_calls : Delivered
no_calls = record { calls = []; panicked = false }

-- The users' callbacks are not part of the library: `panics` says on what they panic.
module _ (panics : Called → Bool) where
  abbrev pub one_call : Called → Delivered
  one_call c = record { calls = c ∷ []; panicked = panics c }

  -- `handler.callback`, run on a sample unless it is nil.
  abbrev pub run_callback : Option ℕ → ℤ × ℤ → NotificationSample → Delivered
  run_callback none time sample = no_calls
  run_callback (some f) time sample =
      one_call (record {
        callback = f;
        handle = sample.handle;
        timestamp = time;
        payload = sample.payload;
      })

  -- What one sample leads to.
  unfoldable pub deliver_sample : List (ℕ × Handler) → ℤ × ℤ → NotificationSample → Delivered
  unfolding lookup
  deliver_sample handlers time sample = elim (lookup sample.handle handlers) [
    | none ↦ no_calls
    | some handler ↦ run_callback handler.callback time sample
  ]

  unfoldable pub deliver_samples : List (ℕ × Handler) → ℤ × ℤ → List NotificationSample → Delivered
  unfolding deliver_sample
  deliver_samples handlers time [] = no_calls
  deliver_samples handlers time (s ∷ ss) =
      unless_panicked (deliver_sample handlers time s) (deliver_samples handlers time ss)

  unfoldable pub deliver_stamps : List (ℕ × Handler) → List NotificationStamp → Delivered
  unfolding deliver_samples unix_time
  deliver_stamps handlers [] = no_calls
  deliver_stamps handlers (s ∷ ss) =
      unless_panicked (deliver_samples handlers (unix_time s.timestamp) s.samples)
        (deliver_stamps handlers ss)

  -- The callback that `processNotifications` gives to the client, while no handler changes. A panic in
  -- it is recovered by `receive`, so that only the calls are left of it.
  unfoldable pub process : List (ℕ × Handler) → DeviceNotificationRequest → List Called
  unfolding deliver_stamps
  process handlers req = (deliver_stamps handlers req.stamps).calls
