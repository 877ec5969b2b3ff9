-- ===== src/Ams/Reports.antt =====
-- The constructors of the packets that ask for the state of a device and for its name and version.
use goads.Base.{ℕ, ◌^◌, ◌<◌, List}
use goads.Ams.Addr.{Addr}
use goads.Ams.Header.Codec.{IsAddr}
use goads.Ams.Framing.{Frames}
use goads.Ams.ReadState.{new_read_state_request, new_read_state_response}
use goads.Ams.ReadState.Wire as ReadStateWire
use goads.Ams.ReadState.Wire.{IsReadStateRequest, IsReadStateResponse}
use goads.Ams.ReadState.Framing.{new_read_state-Frames}
use goads.Ams.ReadDeviceInfo.{new_read_device_info_request, new_read_device_info_response}
use goads.Ams.ReadDeviceInfo.Wire as ReadDeviceInfoWire
use goads.Ams.ReadDeviceInfo.Wire.{IsReadDeviceInfoRequest, IsReadDeviceInfoResponse}
use goads.Ams.ReadDeviceInfo.Framing.{new_read_device_info-Frames}

-- A new ReadState or ReadDeviceInfo request, and a new response to either with numbers of the width
-- of their fields, between two addresses, is one that its codec transfers, and its TCP header
-- announces the bytes behind it, its AMS header the bytes behind both headers.
pub new_reports-Frames :
    {target sender : Addr} (t : IsAddr target) (s : IsAddr sender)
    (result ads_state device_state major minor build : ℕ) (name : List ℕ)
    → result < 2 ^ 32
    → ads_state < 2 ^ 16
    → device_state < 2 ^ 16
    → build < 2 ^ 16
    → let q = new_read_state_request target sender in
      let r = new_read_state_response target sender result ads_state device_state in
      let i = new_read_device_info_request target sender in
      let d = new_read_device_info_response target sender result major minor build name in
      ((IsReadStateRequest q × Frames q.tcp_header q.ams_header (ReadStateWire.request_wire q))
        × (IsReadStateResponse r
            × Frames r.tcp_header r.ams_header (ReadStateWire.response_wire r)))
      × ((IsReadDeviceInfoRequest i
            × Frames i.tcp_header i.ams_header (ReadDeviceInfoWire.request_wire i))
          × (IsReadDeviceInfoResponse d
              × Frames d.tcp_header d.ams_header (ReadDeviceInfoWire.response_wire d)))
new_reports-Frames t s result ads_state device_state major minor build name a b c d = (
  new_read_state-Frames t s result ads_state device_state a b c,
  new_read_device_info-Frames t s result major minor build name a d,
)
