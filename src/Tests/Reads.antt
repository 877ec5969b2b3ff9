-- ===== src/Tests/Reads.antt =====
-- Read packets whose fields fit their types.
use goads.Base.{[], ◌∷◌, refl, arith}
use goads.Tests.Data.{tcp, ams, tcp-IsTcpHeader, ams-IsAmsHeader}
use goads.Ams.Read.{ReadRequest}
use goads.Ams.Read.Wire.{IsReadRequest}
use goads.Ams.Read.{ReadResponse}
use goads.Ams.Read.Wire.{IsReadResponse}

abbrev pub read_request_data : ReadRequest
read_request_data = record {
  tcp_header = tcp;
  ams_header = ams 2 4 77;
  index_group = 0x12345678;
  index_offset = 0x23456789;
  length = 0x34567890;
}

pub read_request_data-IsReadRequest : IsReadRequest read_request_data
read_request_data-IsReadRequest = record {
  tcp_header = tcp-IsTcpHeader;
  ams_header = ams-IsAmsHeader 2 4 77 (omega arith) (omega arith) (omega arith);
  index_group = omega arith;
  index_offset = omega arith;
  length = omega arith;
}

abbrev pub read_response_data : ReadResponse
read_response_data = record {
  tcp_header = tcp;
  ams_header = ams 2 5 77;
  result = 0x12345678;
  length = 3;
  payload = 0 ∷ 1 ∷ 2 ∷ [];
}

pub read_response_data-IsReadResponse : IsReadResponse read_response_data
read_response_data-IsReadResponse = record {
  tcp_header = tcp-IsTcpHeader;
  ams_header = ams-IsAmsHeader 2 5 77 (omega arith) (omega arith) (omega arith);
  result = omega arith;
  length_fits = omega arith;
  payload = refl;
}
