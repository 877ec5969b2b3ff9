-- ===== src/Subscription/Modes.antt =====
-- notification.go: when a device sends notifications.
use goads.Base.{ℕ, List}

-- `NotificationMode`
abbrev pub notification_cyclic : ℕ
notification_cyclic = 3

abbrev pub notification_on_change : ℕ
notification_on_change = 4

-- `NotificationTransMode`
abbrev pub trans_mode_server_cycle : ℕ
trans_mode_server_cycle = 3

abbrev pub trans_mode_server_on_change : ℕ
trans_mode_server_on_change = 4

abbrev pub trans_mode_cyclic : ℕ
trans_mode_cyclic = 10

-- `NotificationAttribs`
pub record NotificationAttribs : Type 0 where
  pub length : ℕ
  pub trans_mode : ℕ
  pub max_delay : ℕ
  pub cycle_time : ℕ
  pub reserved : List ℕ
