-- ===== src/Tests/States.antt =====
-- ReadState and ReadDeviceInfo packets whose fields fit their types.
use goads.Base.{refl, arith, replicate}
use goads.Tests.Data.{tcp, ams, tcp-IsTcpHeader, ams-IsAmsHeader}
use goads.Ams.ReadState.{ReadStateRequest}
use goads.Ams.ReadState.Wire.{IsReadStateRequest}
use goads.Ams.ReadState.{ReadStateResponse}
use goads.Ams.ReadState.Wire.{IsReadStateResponse}
use goads.Ams.ReadDeviceInfo.{ReadDeviceInfoRequest}
use goads.Ams.ReadDeviceInfo.Wire.{IsReadDeviceInfoRequest}
use goads.Ams.ReadDeviceInfo.{ReadDeviceInfoResponse}
use goads.Ams.ReadDeviceInfo.Wire.{IsReadDeviceInfoResponse}

abbrev pub read_state_request_data : ReadStateRequest
read_state_request_data = record { tcp_header = tcp; ams_header = ams 4 4 77 }

pub read_state_request_data-IsReadStateRequest : IsReadStateRequest read_state_request_data
read_state_request_data-IsReadStateRequest = record {
  tcp_header = tcp-IsTcpHeader;
  ams_header = ams-IsAmsHeader 4 4 77 (omega arith) (omega arith) (omega arith);
}

abbrev read_state_response_data : ReadStateResponse
read_state_response_data = record {
  tcp_header = tcp;
  ams_header = ams 4 5 77;
  result = 0;
  ads_state = 5;
  device_state = 5;
}

read_state_response_data-IsReadStateResponse : IsReadStateResponse read_state_response_data
read_state_response_data-IsReadStateResponse = record {
  tcp_header = tcp-IsTcpHeader;
  ams_header = ams-IsAmsHeader 4 5 77 (omega arith) (omega arith) (omega arith);
  result = omega arith;
  ads_state = omega arith;
  device_state = omega arith;
}

abbrev read_device_info_request_data : ReadDeviceInfoRequest
read_device_info_request_data = record { tcp_header = tcp; ams_header = ams 1 4 77 }

read_device_info_request_data-IsReadDeviceInfoRequest :
    IsReadDeviceInfoRequest read_device_info_request_data
read_device_info_request_data-IsReadDeviceInfoRequest = record {
  tcp_header = tcp-IsTcpHeader;
  ams_header = ams-IsAmsHeader 1 4 77 (omega arith) (omega arith) (omega arith);
}

abbrev read_device_info_response_data : ReadDeviceInfoResponse
read_device_info_response_data = record {
  tcp_header = tcp;
  ams_header = ams 1 5 77;
  result = 0;
  major_version = 3;
  minor_version = 1;
  build_version = 4024;
  device_name = replicate 16 b'x';
}

read_device_info_response_data-IsReadDeviceInfoResponse :
    IsReadDeviceInfoResponse read_device_info_response_data
read_device_info_response_data-IsReadDeviceInfoResponse = record {
  tcp_header = tcp-IsTcpHeader;
  ams_header = ams-IsAmsHeader 1 5 77 (omega arith) (omega arith) (omega arith);
  result = omega arith;
  build_version = omega arith;
  device_name = refl;
}
