-- ===== src/Tests/Notifications.antt =====
-- The codecs of the packets about notifications at a packet.
use goads.Base.{false, Bool, ℕ, ◌≡◌, List, true, some, [], ◌∷◌, refl, arith, replicate}
use goads.Ams.Codec.{Transfers}
use goads.Tests.Data.{tcp, ams, tcp-IsTcpHeader, ams-IsAmsHeader}
use goads.Ams.Packet.{device_notification}
use goads.Client.{Client}
use goads.Client.Life.{receive}
use goads.Session.Access.{bare_info}
use goads.Subscription.{Called, Handler}
use goads.Subscription.Arrivals.{calls_in, notified, reads_of, receive-notified}
use goads.Tests.Clients.{willing}
use goads.Ams.Kinds.{codec-Transfers}
use goads.Ams.Kinds
use goads.Ams.Notification
use goads.Ams.Notification.{DeviceNotificationRequest, NotificationStamp, NotificationSample}
use goads.Ams.Notification.Wire.{notification_wire, notification-Transfers, IsDeviceNotification}
use goads.Ams.AddNotification
use goads.Ams.AddNotification.Wire as AddNotificationWire
use goads.Ams.AddNotification.{AddNotificationRequest}
use goads.Ams.AddNotification.Wire.{IsAddNotificationRequest}
use goads.Ams.AddNotification.{AddNotificationResponse}
use goads.Ams.AddNotification.Wire.{IsAddNotificationResponse}
use goads.Ams.DeleteNotification
use goads.Ams.DeleteNotification.{DeleteNotificationRequest}
use goads.Ams.DeleteNotification.Wire.{IsDeleteNotificationRequest}
use goads.Ams.DeleteNotification.{DeleteNotificationResponse}
use goads.Ams.DeleteNotification.Wire.{IsDeleteNotificationResponse}

abbrev add_notification_request_data : AddNotificationRequest
add_notification_request_data = record {
  tcp_header = tcp;
  ams_header = ams 6 4 77;
  index_group = 1;
  index_off = 2;
  length = 4;
  trans_mode = 4;
  max_delay = 5;
  cycle_time = 6;
  reserved = replicate 16 0;
}

add_notification_request_data-IsAddNotificationRequest :
    IsAddNotificationRequest (AddNotification.stamp_request add_notification_request_data)
unfolding AddNotification.stamp_request
add_notification_request_data-IsAddNotificationRequest = record {
  tcp_header = omega arith;
  ams_header = omega arith;
  index_group = omega arith;
  index_off = omega arith;
  length_fits = omega arith;
  trans_mode = omega arith;
  max_delay = omega arith;
  cycle_time = omega arith;
  reserved = refl;
}

abbrev add_notification_response_data : AddNotificationResponse
add_notification_response_data = record {
  tcp_header = tcp;
  ams_header = ams 6 5 77;
  result = 0;
  notification_handle = 9;
}

add_notification_response_data-IsAddNotificationResponse :
    IsAddNotificationResponse (AddNotification.stamp_response add_notification_response_data)
unfolding AddNotification.stamp_response
add_notification_response_data-IsAddNotificationResponse = record {
  tcp_header = omega arith;
  ams_header = omega arith;
  result = omega arith;
  notification_handle = omega arith;
}

abbrev delete_notification_request_data : DeleteNotificationRequest
delete_notification_request_data = record {
  tcp_header = tcp;
  ams_header = ams 7 4 77;
  notification_handle = 9;
}

delete_notification_request_data-IsDeleteNotificationRequest :
    IsDeleteNotificationRequest (DeleteNotification.stamp_request delete_notification_request_data)
unfolding DeleteNotification.stamp_request
delete_notification_request_data-IsDeleteNotificationRequest = record {
  tcp_header = omega arith;
  ams_header = omega arith;
  notification_handle = omega arith;
}

abbrev delete_notification_response_data : DeleteNotificationResponse
delete_notification_response_data = record { tcp_header = tcp; ams_header = ams 7 5 77; result = 0 }

delete_notification_response_data-IsDeleteNotificationResponse :
    IsDeleteNotificationResponse
      (DeleteNotification.stamp_response delete_notification_response_data)
unfolding DeleteNotification.stamp_response
delete_notification_response_data-IsDeleteNotificationResponse = record {
  tcp_header = omega arith;
  ams_header = omega arith;
  result = omega arith;
}

abbrev sample : NotificationSample
sample = record { handle = 9; size = 2; payload = 7 ∷ 8 ∷ [] }

abbrev stamp : NotificationStamp
stamp = record { timestamp = 0x1234_5678_9abc; sample_count = 2; samples = sample ∷ sample ∷ [] }

abbrev notification : DeviceNotificationRequest
notification = record {
  tcp_header = tcp;
  ams_header = ams 8 4 0;
  length = 36;
  stamp_count = 1;
  stamps = stamp ∷ [];
}

notification-IsDeviceNotification : IsDeviceNotification notification
notification-IsDeviceNotification = record {
  tcp_header = tcp-IsTcpHeader;
  ams_header = ams-IsAmsHeader 8 4 0 (omega arith) (omega arith) (omega arith);
  length_fits = omega arith;
  count_fits = omega arith;
  stamp_count = refl;
  stamps = (
    record {
      timestamp = omega arith;
      count_fits = omega arith;
      sample_count = refl;
      samples = (omega arith, (omega arith, tt));
    },
    tt,
  );
}

notification-Transfers_example :
    Transfers Notification.encode Notification.decode
      (notification_wire notification)
      notification
      notification
      notification
      (1 ∷ [])
      (2 ∷ [])
notification-Transfers_example =
    notification-Transfers notification notification (1 ∷ []) (2 ∷ [])
      notification-IsDeviceNotification

codec-Transfers_example :
    Transfers AddNotification.encode_request AddNotification.decode_request
      (AddNotificationWire.request_wire
        (AddNotification.stamp_request add_notification_request_data))
      add_notification_request_data
      add_notification_request_data
      (AddNotification.stamp_request add_notification_request_data)
      (1 ∷ [])
      (2 ∷ [])
codec-Transfers_example =
    codec-Transfers Kinds.add_notification_request add_notification_request_data
      add_notification_request_data (1 ∷ []) (2 ∷ [])
      add_notification_request_data-IsAddNotificationRequest refl

-- A handler of the handle of the first sample.
abbrev handlers : List (ℕ × Handler)
handlers =
    (
      9,
      record {
        handle = 9;
        var_name = 112 ∷ [];
        var_handle = 4;
        callback = some 1;
        symbol_info = bare_info (112 ∷ []) 4;
      },
    )
    ∷ []

-- Callbacks that do not panic.
abbrev quiet : Called → Bool
quiet c = false

abbrev listening : Client
listening = record {
  next_invoke_id = 76;
  handler = [];
  ads_state = 4;
  device_state = 4;
  has_callback = true;
}

receive-notified_example :
    calls_in quiet handlers
      (receive (reads_of willing (device_notification notification ∷ [])) listening)
    ≡ notified quiet handlers true (device_notification notification ∷ [])
receive-notified_example =
    receive-notified quiet handlers willing (device_notification notification ∷ []) listening refl
      ((notification-IsDeviceNotification, refl), tt)
