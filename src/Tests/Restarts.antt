-- ===== src/Tests/Restarts.antt =====
-- A manager that is stopped and started again, in order and too early.
use goads.Base.{ℕ, zero, suc, ◌≡◌, refl, arith, true, false}
use goads.Subscription.{start, stop}
use goads.Subscription.Workers.{
  System, starts, stops, sets, listens, wakes, clears, Reach, begin, later,
}
use goads.Subscription.Workers.Restart.{Still, callback-running}

-- Started, stopped and started again, in order.
unfoldable restarted : (s : System) × Reach true s
unfolding start stop
restarted = (
  _,
  later
      (later
        (later
          (later
            (later
              (later
                (later (later (later begin (starts refl λ i l. absurd (omega arith))) (sets 0 refl))
                  (listens 0 refl))
                (stops refl))
              (wakes 0 refl refl))
            (clears 0 refl))
          (starts refl λ i l. ground arith))
        (sets 1 refl))
      (listens 1 refl),
)

restarted-Still : (i : ℕ) → Still restarted.0.closed (restarted.0.worker i)
unfolding restarted start stop
restarted-Still zero = tt
restarted-Still (suc zero) = refl
restarted-Still (suc (suc i)) = ground arith

callback-running_example : restarted.0.callback ≡ restarted.0.manager.running
callback-running_example = callback-running restarted.1 restarted-Still

-- Started again before the first goroutine has ended: that one clears the callback of the second.
unfoldable hasty : (s : System) × Reach false s
unfolding start stop
hasty = (
  _,
  later
      (later
        (later
          (later
            (later
              (later (later (later (later begin (starts refl tt)) (sets 0 refl)) (listens 0 refl))
                (stops refl))
              (starts refl tt))
            (sets 1 refl))
          (listens 1 refl))
        (wakes 0 refl refl))
      (clears 0 refl),
)

hasty-Still : (i : ℕ) → Still hasty.0.closed (hasty.0.worker i)
unfolding hasty start stop
hasty-Still zero = tt
hasty-Still (suc zero) = refl
hasty-Still (suc (suc i)) = ground arith

-- No goroutine can take a step, the manager runs, and the client has no callback.
lost_callback : (hasty.0.manager.running ≡ true) × (hasty.0.callback ≡ false)
unfolding hasty start stop
lost_callback = (refl, refl)
