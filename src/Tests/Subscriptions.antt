-- ===== src/Tests/Subscriptions.antt =====
-- A session and its notification manager on the device with one variable.
use goads.Base.{ℕ, ◌≡◌, ◌==◌, Bool, true, false, refl, none, some, [], ◌∷◌, if◌then◌else◌}
use goads.Base.Int.{pos}
use goads.Ams.Notification.{DeviceNotificationRequest}
use goads.Variable.{write_nested_field, read_variable}
use goads.Session.{get}
use goads.Session.Operations.{session_write_nested_field, session_read}
use goads.Session.Operations.Mirrors.{
  session_mirrors_client, without_registry, without_info, read_with_handle,
}
use goads.Subscription.{Managed, new_manager}
use goads.Subscription.{Called}
use goads.Subscription.Owner.{Owned, new_session, add_symbol_notification}
use goads.Link.{Reply}
use goads.Tests.Data.{target, sender, tcp, ams}
use goads.Tests.Devices.{World, toy, start_world}

nothing_cached : get [] (112 ∷ []) ≡ none
unfolding get
nothing_cached = refl

session_mirrors_client_example :
    (without_registry (
        session_write_nested_field toy target sender
          (112 ∷ [])
          ((98 ∷ []) ∷ [])
          (8 ∷ 9 ∷ [])
          ([], start_world))
      ≡ write_nested_field toy target sender (112 ∷ []) ((98 ∷ []) ∷ []) (8 ∷ 9 ∷ []) start_world)
    × (without_registry (session_read toy target sender (112 ∷ []) ([], start_world))
        ≡ read_with_handle toy target sender (112 ∷ []) start_world)
    × (without_info (without_registry (session_read toy target sender (112 ∷ []) ([], start_world)))
        ≡ without_info (read_variable toy target sender (112 ∷ []) start_world))
session_mirrors_client_example =
    session_mirrors_client toy target sender (112 ∷ []) ((98 ∷ []) ∷ []) (8 ∷ 9 ∷ []) [] start_world
      nothing_cached

abbrev start_state : Managed World
start_state = (new_manager, ([], start_world))

abbrev notification : DeviceNotificationRequest
notification = record {
  tcp_header = tcp;
  ams_header = ams 8 4 77;
  length = 0;
  stamp_count = 1;
  stamps =
      record {
        timestamp = 116444736000000000;
        sample_count = 2;
        samples =
            record { handle = 9; size = 1; payload = 5 ∷ [] }
            ∷ record { handle = 4; size = 1; payload = 6 ∷ [] }
            ∷ [];
      }
      ∷ [];
}

-- A callback that panics on each byte but 5.
abbrev picky : Called → Bool
picky c = elim c.payload [ [] ↦ true | b ∷ bs ↦ if b == 5 then false else true ]

abbrev added : Reply ℕ × Owned World
added =
    add_symbol_notification toy target sender (112 ∷ []) (pos 100000000) (some 1)
      (new_session start_world)
