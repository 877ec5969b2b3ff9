-- ===== src/Subscription/Callbacks.antt =====
-- Subscribing and its end, and the callbacks that later notifications lead to.
use goads.Base.{ℕ, ◌≡◌, refl, ap, Bool, Option, List}
use goads.Base.Assoc.{insert}
use goads.Base.Int.{ℤ}
use goads.Ams.Addr.{Addr}
use goads.Ams.Notification.{DeviceNotificationRequest}
use goads.Link.{Link, Reply, ok, failed, crashed, Task, follow}
use goads.Session.{get}
use goads.Session.Operations.{session_handle}
use goads.Subscription.{Handler, Manager, Managed, Called, subscribe, process}
use goads.Subscription.Kept.{
  Keeps, kept, Keeps-on_session, Keeps-or_fail, Keeps-no_error, Keeps-request,
}
use goads.Subscription.Delivery.{callback_of, replaced, due, until_panic}

-- What a reply and its manager satisfy.
data Ends {D A : Type 0} (R : Reply A → Manager → Type 0) : Reply A × Managed D → Type 0 where
  end : (reply : Reply A) (w : Managed D) → R reply w.0 → Ends R (reply, w)

ended :
    {D A : Type 0} {R : Reply A → Manager → Type 0} {y : Reply A × Managed D}
    → Ends R y
    → R y.0 y.1.0
ended (end reply w r) = r

-- Where an error leaves what the manager satisfied, what follows decides.
Ends-follow :
    {D A B : Type 0} {P : Manager → Type 0} {R : Reply B → Manager → Type 0}
    (errs : (m : Manager) → P m → R failed m × R crashed m) (x : Reply A × Managed D)
    (f : A → Task (Managed D) B)
    → Keeps P x
    → ((a : A) (w : Managed D) → P w.0 → Ends R (f a w))
    → Ends R (follow x f)
Ends-follow errs (ok a, w) f k rest = rest a w (kept k)
Ends-follow errs (failed, w) f k rest = end failed w (errs w.0 (kept k)).0
Ends-follow errs (crashed, w) f k rest = end crashed w (errs w.0 (kept k)).1

-- The handlers behind `Subscribe`: one more where it returned a handle, else the ones before.
abbrev pub Subscribes : Option ℕ → List (ℕ × Handler) → Reply ℕ → Manager → Type 0
Subscribes callback before (ok h) m =
    (handler : Handler) × (handler.callback ≡ callback) × (m.handlers ≡ insert h handler before)
Subscribes callback before failed m = m.handlers ≡ before
Subscribes callback before crashed m = m.handlers ≡ before

-- The calls of a notification behind `Subscribe`: where it returned a handle, those that are due with
-- the callback of that handle replaced; else those that were due before.
abbrev pub SubscribeCalls :
    (Called → Bool)
    → Option ℕ
    → List (ℕ × Handler)
    → DeviceNotificationRequest
    → Reply ℕ
    → Manager
    → Type 0
SubscribeCalls panics callback before req (ok h) m =
    process panics m.handlers req
    ≡ until_panic panics (due (replaced h callback (callback_of before)) req.stamps)
SubscribeCalls panics callback before req failed m =
    process panics m.handlers req ≡ until_panic panics (due (callback_of before) req.stamps)
SubscribeCalls panics callback before req crashed m =
    process panics m.handlers req ≡ until_panic panics (due (callback_of before) req.stamps)

abbrev Same : List (ℕ × Handler) → Manager → Type 0
Same before m = m.handlers ≡ before

module _ {D : Type 0} (link : Link D) (target sender : Addr) where
  Ends-subscribe :
      (name : List ℕ) (cycle_time : ℤ) (callback : Option ℕ) (w : Managed D)
      → Ends
          (Subscribes callback w.0.handlers)
          (subscribe link target sender name cycle_time callback w)
  unfolding subscribe
  Ends-subscribe name cycle_time callback w =
      let errs : (m : Manager)
          → Same w.0.handlers m
          → Subscribes callback w.0.handlers failed m × Subscribes callback w.0.handlers crashed m =
        λ m same. (same, same) in
      Ends-follow errs _ _ (Keeps-on_session (session_handle link target sender name) w refl)
        λ handle w1 same1.
          Ends-follow errs _ _ (Keeps-or_fail (get w1.1.0 name) w1 same1) λ info w2 same2.
            Ends-follow errs _ _ (Keeps-request link target sender info cycle_time w2 same2)
              λ resp w3 same3.
                Ends-follow errs _ _ (Keeps-no_error resp.result w3 same3) λ _ w4 same4.
                  end (ok resp.notification_handle) _
                    (_, refl, ap (insert resp.notification_handle _) same4)

  pub subscribe-Subscribes :
      (name : List ℕ) (cycle_time : ℤ) (callback : Option ℕ) (w : Managed D)
      → (let (reply, w') = subscribe link target sender name cycle_time callback w in
          Subscribes callback w.0.handlers reply w'.0)
  subscribe-Subscribes name cycle_time callback w =
      ended (Ends-subscribe name cycle_time callback w)
