-- ===== src/Ams/Notification.antt =====
-- ams/notification.go: the packet that carries the samples of device notifications.
pub mod Wire
use goads.Base.{
  ℕ, zero, suc, ◌+◌, ◌*◌, ◌/◌, ◌%◌, ◌^◌, Bool, Option, none, some, List, [], ◌∷◌, ◌==◌, replicate,
}
use goads.Ams.Outcome.{Error}
use goads.Ams.Buffer.{
  Action, ◌>>=◌, ◌>>◌, pure, err_of, return_err, read_n, read_uint32, read_struct, write_n,
  write_uint32, write_struct,
}
use goads.Ams.Header.{TcpHeader, AmsHeader, encode_tcp, decode_tcp, encode_ams, decode_ams}
use goads.Ams.Constants.{cmd_ads_device_notification}

pub record NotificationSample : Type 0 where
  pub handle : ℕ
  pub size : ℕ
  pub payload : List ℕ

pub record NotificationStamp : Type 0 where
  pub timestamp : ℕ
  pub sample_count : ℕ
  pub samples : List NotificationSample

pub record DeviceNotificationRequest : Type 0 where
  pub tcp_header : TcpHeader
  pub ams_header : AmsHeader
  pub length : ℕ
  pub stamp_count : ℕ
  pub stamps : List NotificationStamp

-- The bodies of the two loops of `Encode`, and the loops.
unfoldable pub write_sample : NotificationSample → Action Unit
write_sample s = do write_uint32 s.handle; write_uint32 s.size; write_n s.payload s.size

unfoldable pub write_samples : List NotificationSample → Action Unit
write_samples [] = pure tt
write_samples (s ∷ ss) = do write_sample s; write_samples ss

-- `uint32(ts)` and `uint32(ts >> 32)`
unfoldable pub write_stamp : NotificationStamp → Action Unit
write_stamp s = do
  write_uint32 (s.timestamp % 2 ^ 32)
  write_uint32 (s.timestamp / 2 ^ 32 % 2 ^ 32)
  write_uint32 s.sample_count
  write_samples s.samples

unfoldable pub write_stamps : List NotificationStamp → Action Unit
write_stamps [] = pure tt
write_stamps (s ∷ ss) = do write_stamp s; write_stamps ss

unfoldable pub encode :
    DeviceNotificationRequest → Action (DeviceNotificationRequest × Option Error)
encode r = do
  tcp ← write_struct encode_tcp r.tcp_header
  ams ← write_struct encode_ams r.ams_header
  write_uint32 r.length
  write_uint32 r.stamp_count
  write_stamps r.stamps
  return_err (record r { tcp_header = tcp; ams_header = ams })

-- The zero values that `make` fills a slice with.
abbrev pub zero_sample : NotificationSample
zero_sample = record { handle = 0; size = 0; payload = [] }

abbrev pub zero_stamp : NotificationStamp
zero_stamp = record { timestamp = 0; sample_count = 0; samples = [] }

-- `if b.Err() != nil { return b.Err() }`: `early` is what the receiver holds at that return.
unfoldable pub check_err : {A : Type 0} → A → Action A → Action A
check_err early rest = do e ← err_of; elim e [ some _ ↦ pure early | none ↦ rest ]

-- One sample; each test of the error stands behind the read that may set it.
unfoldable pub read_sample : Action NotificationSample
unfolding check_err
read_sample = do
  handle ← read_uint32
  check_err (record { handle = handle; size = 0; payload = [] })
      do
        size ← read_uint32
        check_err (record { handle = handle; size = size; payload = [] })
            do
              payload ← read_n size
              pure (record { handle = handle; size = size; payload = payload })

-- The loop over the samples: an error leaves the rest of the slice at its zero values.
unfoldable pub read_samples : ℕ → Action (List NotificationSample)
unfolding check_err
read_samples zero = pure []
read_samples (suc n) = do
  s ← read_sample
  check_err (s ∷ replicate n zero_sample) (do ss ← read_samples n; pure (s ∷ ss))

-- One stamp. The two halves of the time stamp do not overlap, so `|` is `+`.
unfoldable pub read_stamp : Action NotificationStamp
unfolding check_err
read_stamp = do
  low ← read_uint32
  high ← read_uint32
  let timestamp = low + high * 2 ^ 32
  check_err (record { timestamp = timestamp; sample_count = 0; samples = [] })
      do
        count ← read_uint32
        check_err (record { timestamp = timestamp; sample_count = count; samples = [] })
            do
              samples ← read_samples count
              pure (record { timestamp = timestamp; sample_count = count; samples = samples })

unfoldable pub read_stamps : ℕ → Action (List NotificationStamp)
unfolding check_err
read_stamps zero = pure []
read_stamps (suc n) = do
  s ← read_stamp
  check_err (s ∷ replicate n zero_stamp) (do ss ← read_stamps n; pure (s ∷ ss))

-- Every early return returns `b.Err()`, as the last line does.
unfoldable pub decode_body : DeviceNotificationRequest → Action DeviceNotificationRequest
unfolding check_err
decode_body r = do
  tcp ← read_struct decode_tcp r.tcp_header
  ams ← read_struct decode_ams r.ams_header
  let r1 = record r { tcp_header = tcp; ams_header = ams }
  check_err r1 do
    length ← read_uint32
    let r2 = record r1 { length = length }
    check_err r2 do
      count ← read_uint32
      let r3 = record r2 { stamp_count = count }
      check_err r3 do stamps ← read_stamps count; pure (record r3 { stamps = stamps })

unfoldable pub decode :
    DeviceNotificationRequest → Action (DeviceNotificationRequest × Option Error)
unfolding decode_body
decode r = do r' ← decode_body r; return_err r'

-- `IsDeviceNotificationRequest`
unfoldable pub is_device_notification_request : AmsHeader → Bool
is_device_notification_request h = h.cmd_id == cmd_ads_device_notification
