-- ===== src/Tests/Writes.antt =====
-- Write and ReadWrite packets whose fields fit their types.
use goads.Base.{[], ◌∷◌, refl, arith}
use goads.Tests.Data.{tcp, ams, tcp-IsTcpHeader, ams-IsAmsHeader}
use goads.Ams.Write.{WriteRequest}
use goads.Ams.Write.Wire.{IsWriteRequest}
use goads.Ams.Write.{WriteResponse}
use goads.Ams.Write.Wire.{IsWriteResponse}
use goads.Ams.ReadWrite.{ReadWriteRequest}
use goads.Ams.ReadWrite.Wire.{IsReadWriteRequest}
use goads.Ams.ReadWrite.{ReadWriteResponse}
use goads.Ams.ReadWrite.Wire.{IsReadWriteResponse}

abbrev write_request_data : WriteRequest
write_request_data = record {
  tcp_header = tcp;
  ams_header = ams 3 4 77;
  index_group = 1;
  index_offset = 2;
  length = 2;
  payload = 7 ∷ 8 ∷ [];
}

write_request_data-IsWriteRequest : IsWriteRequest write_request_data
write_request_data-IsWriteRequest = record {
  tcp_header = tcp-IsTcpHeader;
  ams_header = ams-IsAmsHeader 3 4 77 (omega arith) (omega arith) (omega arith);
  index_group = omega arith;
  index_offset = omega arith;
  length_fits = omega arith;
  payload = refl;
}

abbrev write_response_data : WriteResponse
write_response_data = record { tcp_header = tcp; ams_header = ams 3 5 77; result = 7 }

write_response_data-IsWriteResponse : IsWriteResponse write_response_data
write_response_data-IsWriteResponse = record {
  tcp_header = tcp-IsTcpHeader;
  ams_header = ams-IsAmsHeader 3 5 77 (omega arith) (omega arith) (omega arith);
  result = omega arith;
}

abbrev read_write_request_data : ReadWriteRequest
read_write_request_data = record {
  tcp_header = tcp;
  ams_header = ams 9 4 77;
  index_group = 1;
  index_offset = 2;
  read_length = 4;
  write_length = 2;
  payload = 7 ∷ 8 ∷ [];
}

read_write_request_data-IsReadWriteRequest : IsReadWriteRequest read_write_request_data
read_write_request_data-IsReadWriteRequest = record {
  tcp_header = tcp-IsTcpHeader;
  ams_header = ams-IsAmsHeader 9 4 77 (omega arith) (omega arith) (omega arith);
  index_group = omega arith;
  index_offset = omega arith;
  read_length = omega arith;
  write_length = omega arith;
  payload = refl;
}

abbrev pub read_write_response_data : ReadWriteResponse
read_write_response_data = record {
  tcp_header = tcp;
  ams_header = ams 9 5 77;
  result = 0;
  length = 3;
  payload = 0 ∷ 1 ∷ 2 ∷ [];
}

read_write_response_data-IsReadWriteResponse : IsReadWriteResponse read_write_response_data
read_write_response_data-IsReadWriteResponse = record {
  tcp_header = tcp-IsTcpHeader;
  ams_header = ams-IsAmsHeader 9 5 77 (omega arith) (omega arith) (omega arith);
  result = omega arith;
  length_fits = omega arith;
  payload = refl;
}
