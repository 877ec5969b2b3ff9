-- ===== src/Ams/Notification/Wire.antt =====
-- The wire format of the device notification, and that its codec follows it.
use goads.Base.{
  ℕ, ◌+◌, ◌*◌, ◌/◌, ◌%◌, ◌^◌, ◌<◌, ◌≡◌, none, List, [], ◌∷◌, ◌++◌, length, concat, All, arith,
}
use goads.Ams.Buffer.{Action, ◌>>=◌, err_of, put_uint32}
use goads.Ams.Buffer.Reads.{
  Reads, Reads-map, Reads-bind, Reads-pure, Reads-uint32, Reads-read_n, Reads-end,
}
use goads.Ams.Buffer.Writes.{
  Writes, Writes-return_err, Writes-seq, Writes-pure, Writes-uint32, Writes-write_n,
}
use goads.Ams.Header.Codec.{
  IsTcpHeader, IsAmsHeader, tcp_wire, ams_wire, Writes-tcp_then, Writes-ams_then, Reads-tcp_then,
  Reads-ams_then,
}
use goads.Ams.Codec.{Transfers}
use goads.Ams.Notification.{
  NotificationSample, NotificationStamp, DeviceNotificationRequest, write_sample, write_samples,
  write_stamp, write_stamps, encode, check_err, read_sample, read_samples, read_stamp, read_stamps,
  decode_body, decode,
}

pub record IsSample (s : NotificationSample) : Type 0 where
  pub handle : s.handle < 2 ^ 32
  pub size_fits : s.size < 2 ^ 32
  pub payload : length s.payload ≡ s.size

pub record IsStamp (s : NotificationStamp) : Type 0 where
  pub timestamp : s.timestamp < 2 ^ 64
  pub count_fits : s.sample_count < 2 ^ 32
  pub sample_count : length s.samples ≡ s.sample_count
  pub samples : All IsSample s.samples

pub record IsDeviceNotification (r : DeviceNotificationRequest) : Type 0 where
  pub tcp_header : IsTcpHeader r.tcp_header
  pub ams_header : IsAmsHeader r.ams_header
  pub length_fits : r.length < 2 ^ 32
  pub count_fits : r.stamp_count < 2 ^ 32
  pub stamp_count : length r.stamps ≡ r.stamp_count
  pub stamps : All IsStamp r.stamps

unfoldable pub sample_wire : NotificationSample → List ℕ
sample_wire s = put_uint32 s.handle ++ (put_uint32 s.size ++ s.payload)

unfoldable pub samples_wire : List NotificationSample → List ℕ
samples_wire [] = []
samples_wire (s ∷ ss) = sample_wire s ++ samples_wire ss

unfoldable pub stamp_wire : NotificationStamp → List ℕ
stamp_wire s =
    put_uint32 (s.timestamp % 2 ^ 32)
    ++ (put_uint32 (s.timestamp / 2 ^ 32 % 2 ^ 32)
        ++ (put_uint32 s.sample_count ++ samples_wire s.samples))

unfoldable pub stamps_wire : List NotificationStamp → List ℕ
stamps_wire [] = []
stamps_wire (s ∷ ss) = stamp_wire s ++ stamps_wire ss

unfoldable pub notification_wire : DeviceNotificationRequest → List ℕ
notification_wire r = concat (
    tcp_wire r.tcp_header
    ∷ ams_wire r.ams_header
    ∷ put_uint32 r.length
    ∷ put_uint32 r.stamp_count
    ∷ stamps_wire r.stamps
    ∷ [])

Writes-sample : (s : NotificationSample) → IsSample s → Writes (write_sample s) (sample_wire s) tt
unfolding write_sample sample_wire
Writes-sample s v =
    Writes-seq (Writes-uint32 _) (Writes-seq (Writes-uint32 _) (Writes-write_n _ _ v.payload))

Writes-samples :
    (ss : List NotificationSample)
    → All IsSample ss
    → Writes (write_samples ss) (samples_wire ss) tt
unfolding write_samples samples_wire
Writes-samples [] v = Writes-pure tt
Writes-samples (s ∷ ss) (v, vs) = Writes-seq (Writes-sample s v) (Writes-samples ss vs)

Writes-stamp : (s : NotificationStamp) → IsStamp s → Writes (write_stamp s) (stamp_wire s) tt
unfolding write_stamp stamp_wire
Writes-stamp s v = Writes-seq (Writes-uint32 _) (
    Writes-seq (Writes-uint32 _)
      (Writes-seq (Writes-uint32 _) (Writes-samples s.samples v.samples)))

Writes-stamps :
    (ss : List NotificationStamp) → All IsStamp ss → Writes (write_stamps ss) (stamps_wire ss) tt
unfolding write_stamps stamps_wire
Writes-stamps [] v = Writes-pure tt
Writes-stamps (s ∷ ss) (v, vs) = Writes-seq (Writes-stamp s v) (Writes-stamps ss vs)

Writes-notification :
    (r : DeviceNotificationRequest)
    → IsDeviceNotification r
    → Writes (encode r) (notification_wire r) (r, none)
unfolding encode notification_wire
Writes-notification r v = Writes-tcp_then _ _ (
    Writes-ams_then _ _ (
      Writes-seq (Writes-uint32 _) (
        Writes-seq (Writes-uint32 _)
          (Writes-seq (Writes-stamps r.stamps v.stamps) (Writes-return_err r)))))

-- A test of the error changes nothing while there is none.
Reads-check_err :
    {A : Type 0} (early : A) {m : Action A} {bs : List ℕ} {a : A}
    → Reads m bs a
    → Reads (check_err early m) bs a
unfolding check_err err_of ◌>>=◌
Reads-check_err early h = record { run = λ rest. h.run rest }

Reads-sample : (s : NotificationSample) → IsSample s → Reads read_sample (sample_wire s) s
unfolding read_sample sample_wire
Reads-sample s v = Reads-bind _ (Reads-uint32 _ v.handle) (
    Reads-check_err _ (
      Reads-bind _ (Reads-uint32 _ v.size_fits)
        (Reads-check_err _ (Reads-map _ (Reads-read_n _ _ v.payload)))))

Reads-samples :
    (ss : List NotificationSample)
    → All IsSample ss
    → Reads (read_samples (length ss)) (samples_wire ss) ss
unfolding read_samples samples_wire
Reads-samples [] v = Reads-pure []
Reads-samples (s ∷ ss) (v, vs) =
    Reads-bind _ (Reads-sample s v) (Reads-check_err _ (Reads-map (◌∷◌ s) (Reads-samples ss vs)))

halves : (t : ℕ) → t < 2 ^ 64 → t % 2 ^ 32 + t / 2 ^ 32 % 2 ^ 32 * 2 ^ 32 ≡ t
halves t h = omega arith

Reads-counted :
    (s : NotificationStamp)
    → IsStamp s
    → Reads (read_samples s.sample_count) (samples_wire s.samples) s.samples
Reads-counted s v = rw (← v.sample_count) (Reads-samples s.samples v.samples)

Reads-stamp : (s : NotificationStamp) → IsStamp s → Reads read_stamp (stamp_wire s) s
unfolding read_stamp stamp_wire
Reads-stamp s v = Reads-bind _ (Reads-uint32 _ (omega arith)) (
    Reads-bind _ (Reads-uint32 _ (omega arith)) (
      Reads-check_err _ (
        Reads-bind _ (Reads-uint32 _ v.count_fits) (
          Reads-check_err _
            (rw (halves s.timestamp v.timestamp) (Reads-map _ (Reads-counted s v)))))))

Reads-stamps :
    (ss : List NotificationStamp)
    → All IsStamp ss
    → Reads (read_stamps (length ss)) (stamps_wire ss) ss
unfolding read_stamps stamps_wire
Reads-stamps [] v = Reads-pure []
Reads-stamps (s ∷ ss) (v, vs) =
    Reads-bind _ (Reads-stamp s v) (Reads-check_err _ (Reads-map (◌∷◌ s) (Reads-stamps ss vs)))

Reads-stamps_counted :
    (r : DeviceNotificationRequest)
    → IsDeviceNotification r
    → Reads (read_stamps r.stamp_count) (stamps_wire r.stamps) r.stamps
Reads-stamps_counted r v = rw (← v.stamp_count) (Reads-stamps r.stamps v.stamps)

Reads-body :
    (z r : DeviceNotificationRequest)
    → IsDeviceNotification r
    → Reads (decode_body z) (notification_wire r) r
unfolding decode_body notification_wire
Reads-body z r v = Reads-tcp_then _ _ _ v.tcp_header (
    Reads-ams_then _ _ _ v.ams_header (
      Reads-check_err _ (
        Reads-bind _ (Reads-uint32 _ v.length_fits) (
          Reads-check_err _ (
            Reads-bind _ (Reads-uint32 _ v.count_fits)
              (Reads-check_err _ (Reads-bind _ (Reads-stamps_counted r v) (Reads-pure r))))))))

Reads-notification :
    (z r : DeviceNotificationRequest)
    → IsDeviceNotification r
    → Reads (decode z) (notification_wire r) (r, none)
unfolding decode
Reads-notification z r v = Reads-end (Reads-body z r v)

-- A device notification whose fields fit their Go types, and whose counts and sizes are those of its
-- stamps, samples and data, is encoded as its wire format, behind whatever the buffer holds, and
-- decoded from it, whatever follows and whatever the receiver held.
pub notification-Transfers :
    (z r : DeviceNotificationRequest) (b rest : List ℕ)
    → IsDeviceNotification r
    → Transfers encode decode (notification_wire r) z r r b rest
notification-Transfers z r b rest v =
    ((Writes-notification r v).run b, (Reads-notification z r v).run rest)
