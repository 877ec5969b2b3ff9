-- ===== src/Tests/Data.antt =====
-- The values of ams/codec_test.go and a few packets.
use goads.Base.{ℕ, [], ◌∷◌, ◌<◌, arith}
use goads.Ams.Addr.{Addr}
use goads.Ams.Header.{TcpHeader, AmsHeader}
use goads.Ams.Header.Codec.{IsAddr, IsTcpHeader, IsAmsHeader}

abbrev pub target : Addr
target = record { net_id = 1 ∷ 2 ∷ 3 ∷ 4 ∷ 5 ∷ 6 ∷ []; port = 1234 }

abbrev pub sender : Addr
sender = record { net_id = 5 ∷ 6 ∷ 7 ∷ 8 ∷ 9 ∷ 0 ∷ []; port = 5678 }

abbrev pub tcp : TcpHeader
tcp = record { reserved = 0x1234; length = 0x12345678 }

-- The AMS header of a packet with a command id, flags and an invoke id.
abbrev pub ams : ℕ → ℕ → ℕ → AmsHeader
ams cmd flags id = record {
  target = target;
  sender = sender;
  cmd_id = cmd;
  state_flags = flags;
  length = 0x12345678;
  error_code = 0x34567890;
  invoke_id = id;
}

pub target-IsAddr : IsAddr target
target-IsAddr = omega arith

pub sender-IsAddr : IsAddr sender
sender-IsAddr = omega arith

pub tcp-IsTcpHeader : IsTcpHeader tcp
tcp-IsTcpHeader = omega arith

pub ams-IsAmsHeader :
    (cmd flags id : ℕ)
    → cmd < 65536
    → flags < 65536
    → id < 4294967296
    → IsAmsHeader (ams cmd flags id)
ams-IsAmsHeader cmd flags id c f i = record {
  target = target-IsAddr;
  sender = sender-IsAddr;
  cmd_id = c;
  state_flags = f;
  length = omega arith;
  error_code = omega arith;
  invoke_id = i;
}
