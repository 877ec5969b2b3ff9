-- ===== src/Subscription/Delivery.antt =====
-- What a notification should lead to, written without the code: for each sample in its order a call of
-- the callback that its handle has, with the time of its stamp, up to the first call that panics.
use goads.Base.{
  ℕ, zero, suc, ◌+◌, ◌/◌, ◌%◌, ◌*◌, ◌-◌, ◌≡◌, refl, sym, ap, ◌∙◌, ltb, ◌==◌, Bool, true, false,
  Option, none, some, List, [], ◌∷◌, ◌++◌, if◌then◌else◌, Option-cases, Bool-cases, inl, inr, arith,
}
use mathlib.Core.Path.{fun_ext}
use goads.Base.Assoc.{lookup, erase, insert, lookup-erase, lookup-insert}
use goads.Base.Int.{ℤ, pos, neg, signed, quot, rem, times, minus}
use goads.Ams.Notification.{NotificationSample, NotificationStamp, DeviceNotificationRequest}
use goads.Subscription.{
  Handler, Called, Delivered, unless_panicked, one_call, run_callback, unix_time, deliver_sample,
  deliver_samples, deliver_stamps, process,
}

-- The callback of a handle, `none` where there is no handler or a nil one.
abbrev callback_in : Option Handler → Option ℕ
callback_in none = none
callback_in (some handler) = handler.callback

abbrev pub callback_of : List (ℕ × Handler) → ℕ → Option ℕ
callback_of handlers h = callback_in (lookup h handlers)

-- The callbacks with that of one handle replaced.
abbrev pub replaced : ℕ → Option ℕ → (ℕ → Option ℕ) → ℕ → Option ℕ
replaced h callback table k = if h == k then callback else table k

-- A number of 100 nanoseconds since 1601 as seconds since 1970 and nanoseconds. From 2^63 on it is
-- a negative one in two's complement, whose remainder is negative too.
abbrev pub file_time : ℕ → ℤ × ℤ
file_time t =
    if ltb t 9223372036854775808
    then (minus (pos (t / 10000000)) 11644473600, pos (t % 10000000 * 100))
    else (
      minus (neg ((18446744073709551615 - t + 1) / 10000000)) 11644473600,
      neg ((18446744073709551615 - t + 1) % 10000000 * 100),
    )

-- The call that a sample should lead to.
abbrev pub due_call : Option ℕ → ℕ → NotificationSample → List Called
due_call none t s = []
due_call (some f) t s =
    record { callback = f; handle = s.handle; timestamp = file_time t; payload = s.payload } ∷ []

abbrev pub due_in_stamp : (ℕ → Option ℕ) → ℕ → List NotificationSample → List Called
due_in_stamp table t [] = []
due_in_stamp table t (s ∷ ss) = due_call (table s.handle) t s ++ due_in_stamp table t ss

-- The calls that stamps should lead to where no callback panics.
abbrev pub due : (ℕ → Option ℕ) → List NotificationStamp → List Called
due table [] = []
due table (s ∷ ss) = due_in_stamp table s.timestamp s.samples ++ due table ss

-- Calls up to the first one that panics.
abbrev pub until_panic : (Called → Bool) → List Called → List Called
until_panic panics [] = []
until_panic panics (c ∷ cs) =
    let rest = until_panic panics cs in if panics c then c ∷ [] else c ∷ rest

abbrev any_panics : (Called → Bool) → List Called → Bool
any_panics panics [] = false
any_panics panics (c ∷ cs) = let rest = any_panics panics cs in if panics c then true else rest

times-neg : (n k : ℕ) → times (neg n) k ≡ neg (n * k)
unfolding times
times-neg zero k = let nothing : 0 ≡ 0 * k = omega arith in ap pos (sym nothing) ∙ ap neg nothing
times-neg (suc n) k = ap (λ m. neg (m * k)) (omega arith)

unix_time-file_time : (t : ℕ) → unix_time t ≡ file_time t
unfolding unix_time signed quot rem
unix_time-file_time t = elim (Bool-cases (ltb t 9223372036854775808)) [
  | inl small ↦ rw (small, unix_time) refl
  | inr large ↦
      rw (large, unix_time)
        (ap (λ x. (minus (neg ((18446744073709551615 - t + 1) / 10000000)) 11644473600, x))
          (times-neg ((18446744073709551615 - t + 1) % 10000000) 100))
]

module _ (panics : Called → Bool) where
  -- A call in front that does not panic
  abbrev ahead : Called → Delivered → Delivered
  ahead c d = record { calls = c ∷ d.calls; panicked = d.panicked }

  ahead_inside :
      (c : Called) (d e : Delivered) → unless_panicked (ahead c d) e ≡ ahead c (unless_panicked d e)
  ahead_inside c d e = elim (Bool-cases d.panicked) [
    | inl stops ↦ rw stops refl
    | inr goes ↦ rw goes refl
  ]

  -- The calls as they are made, with whether one panics.
  abbrev made : List Called → Delivered
  made cs = record { calls = until_panic panics cs; panicked = any_panics panics cs }

  unless_panicked-made :
      (xs ys : List Called) → unless_panicked (made xs) (made ys) ≡ made (xs ++ ys)
  unless_panicked-made [] ys = refl
  unless_panicked-made (x ∷ xs) ys = elim (Bool-cases (panics x)) [
    | inl stops ↦ rw stops refl
    | inr goes ↦
        rw goes (ahead_inside x (made xs) (made ys) ∙ ap (ahead x) (unless_panicked-made xs ys))
  ]

  called_once : (c : Called) → one_call panics c ≡ made (c ∷ [])
  called_once c = elim (Bool-cases (panics c)) [
    | inl stops ↦ rw stops refl
    | inr goes ↦ rw goes refl
  ]

  run_callback-made :
      (callback : Option ℕ) (t : ℕ) (s : NotificationSample)
      → run_callback panics callback (file_time t) s ≡ made (due_call callback t s)
  run_callback-made none t s = refl
  run_callback-made (some f) t s =
      called_once
        (record { callback = f; handle = s.handle; timestamp = file_time t; payload = s.payload })

  deliver_sample-made :
      (m : List (ℕ × Handler)) (t : ℕ) (s : NotificationSample)
      → deliver_sample panics m (file_time t) s ≡ made (due_call (callback_of m s.handle) t s)
  unfolding deliver_sample
  deliver_sample-made m t s = elim (Option-cases (lookup s.handle m)) [
    | inl gone ↦ rw (gone, deliver_sample) refl
    | inr (handler, there) ↦ rw (there, deliver_sample) (run_callback-made handler.callback t s)
  ]

  deliver_samples-made :
      (m : List (ℕ × Handler)) (t : ℕ) (ss : List NotificationSample)
      → deliver_samples panics m (file_time t) ss ≡ made (due_in_stamp (callback_of m) t ss)
  unfolding deliver_samples
  deliver_samples-made m t [] = refl
  deliver_samples-made m t (s ∷ ss) =
      rw (deliver_sample-made m t s, deliver_samples-made m t ss)
        (unless_panicked-made (due_call (callback_of m s.handle) t s)
          (due_in_stamp (callback_of m) t ss))

  deliver_stamps-made :
      (m : List (ℕ × Handler)) (stamps : List NotificationStamp)
      → deliver_stamps panics m stamps ≡ made (due (callback_of m) stamps)
  unfolding deliver_stamps
  deliver_stamps-made m [] = refl
  deliver_stamps-made m (s ∷ ss) =
      rw
        (
          unix_time-file_time s.timestamp,
          deliver_samples-made m s.timestamp s.samples,
          deliver_stamps-made m ss,
        )
        (unless_panicked-made (due_in_stamp (callback_of m) s.timestamp s.samples)
          (due (callback_of m) ss))

  -- The calls of a notification: those that are due, up to the first that panics.
  pub process-due :
      (m : List (ℕ × Handler)) (req : DeviceNotificationRequest)
      → process panics m req ≡ until_panic panics (due (callback_of m) req.stamps)
  unfolding process
  process-due m req = ap (λ d. d.calls) (deliver_stamps-made m req.stamps)

  -- Handlers whose callbacks are those of a table.
  pub process-table :
      (m : List (ℕ × Handler)) (table : ℕ → Option ℕ) (req : DeviceNotificationRequest)
      → ((h : ℕ) → callback_of m h ≡ table h)
      → process panics m req ≡ until_panic panics (due table req.stamps)
  process-table m table req same =
      process-due m req ∙ ap (λ f. until_panic panics (due f req.stamps)) (fun_ext same)

pub callback_of-insert :
    (h : ℕ) (handler : Handler) (m : List (ℕ × Handler)) (k : ℕ)
    → callback_of (insert h handler m) k ≡ replaced h handler.callback (callback_of m) k
callback_of-insert h handler m k =
    ap callback_in (lookup-insert h k handler m)
    ∙ elim (Bool-cases (h == k)) [ inl same ↦ rw same refl | inr other ↦ rw other refl ]

pub callback_of-erase :
    (h : ℕ) (m : List (ℕ × Handler)) (k : ℕ)
    → callback_of (erase h m) k ≡ replaced h none (callback_of m) k
callback_of-erase h m k =
    ap callback_in (lookup-erase h k m)
    ∙ elim (Bool-cases (h == k)) [ inl same ↦ rw same refl | inr other ↦ rw other refl ]

pub callback_of-missing :
    (h : ℕ) (m : List (ℕ × Handler))
    → lookup h m ≡ none
    → (k : ℕ) → callback_of m k ≡ replaced h none (callback_of m) k
callback_of-missing h m missing k = elim (Bool-cases (h == k)) [
  | inl same ↦
      rw same (ap (λ j. callback_of m j) (sym (ground (arith, same))) ∙ ap callback_in missing)
  | inr other ↦ rw other refl
]
