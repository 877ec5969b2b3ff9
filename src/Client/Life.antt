-- ===== src/Client/Life.antt =====
-- client.go: `Dial`, the loop of `receive` from its start to its end, the states that they set, and
-- the callback. Between two turns the client is as the turn left it: calls of `send` are not in this
-- part.
pub mod States
use goads.Base.{ℕ, Bool, Option, none, some, List, [], ◌∷◌, ◌++◌}
use goads.Ams.Constants.{ads_state_start, ads_state_run, ads_state_stop}
use goads.Client.{Client, Effect, Choice, Turn, continues, returns, crashes, turn}
use goads.Client.Send.{fresh_id}

-- `SetADSState` and `SetDeviceState` with one state
abbrev pub with_states : ℕ → Client → Client
with_states state c = record c { ads_state = state; device_state = state }

-- `GetState`
abbrev pub get_state : Client → ℕ × ℕ
get_state c = (c.ads_state, c.device_state)

-- `SetNotificationCallback` with a callback or nil
abbrev pub set_notification_callback : Bool → Client → Client
set_notification_callback given c = record c { has_callback = given }

-- `Dial`: whether `receive` is started, which is where the connection is made, and the client.
abbrev pub dial : Bool → Client → Bool × Client
dial connects c = (connects, with_states ads_state_start (record c { next_invoke_id = fresh_id c }))

-- How far `receive` is behind some reads: it goes on, it has returned, or it has panicked.
pub data Life : Type 0 where
  reading : Client → List Effect → Life
  over : Client → List Effect → Life
  panicked : List Effect → Life

-- What came before a life.
abbrev pub behind : List Effect → Life → Life
behind es (reading c fs) = reading c (es ++ fs)
behind es (over c fs) = over c (es ++ fs)
behind es (panicked fs) = panicked (es ++ fs)

-- What follows a turn, where `k` is the rest of the loop. The deferred calls set the states on return.
unfoldable pub on_loop : (Client → Life) → Turn → Life
on_loop k (continues c es) = behind es (k c)
on_loop k (returns c es) = over (with_states ads_state_stop c) es
on_loop k crashes = panicked []

-- The loop on the results of `conn.Read`, where `none` is an error.
unfoldable pub loop : List (Choice × Option (List ℕ)) → Client → Life
unfolding on_loop turn
loop [] c = reading c []
loop ((choice, none) ∷ reads) c = over (with_states ads_state_stop c) []
loop ((choice, some bytes) ∷ reads) c = on_loop (loop reads) (turn choice c bytes)

-- `receive`
unfoldable pub receive : List (Choice × Option (List ℕ)) → Client → Life
unfolding loop
receive reads c = loop reads (with_states ads_state_run c)

-- `GetRuntimeVersion` and `GetDeviceInfo` ask nothing of the device.
pub record DeviceInfo : Type 0 where
  pub major_version : ℕ
  pub minor_version : ℕ
  pub build_version : ℕ
  pub device_name : List ℕ

-- The bytes of `connected`
abbrev pub get_runtime_version : Client → List ℕ
get_runtime_version c = 99 ∷ 111 ∷ 110 ∷ 110 ∷ 101 ∷ 99 ∷ 116 ∷ 101 ∷ 100 ∷ []

abbrev pub get_device_info : Client → DeviceInfo
get_device_info c = record {
  major_version = 0;
  minor_version = 0;
  build_version = 0;
  device_name = [];
}
