-- ===== src/Device/Sample.antt =====
-- A build of the reference device of examples/device/src/cxx_device.cpp, the rest of the platform, a state of the device and a session
-- with the token "t", for the theorems at concrete inputs.
use qdmi.Base.{◌/◌, suc, true, ◌+◌, ◌*◌, arith}
use qdmi.Base.Bytes.{text}
use qdmi.Constants.{idle}
use qdmi.Device.Query.Operations.{IsLinked}
use qdmi.Device.World.{Platform}
use qdmi.Device.State.{Session, initialized, DeviceState, Build}

abbrev pub build : Build
build = record {
  device_id = text "d";
  device_version = text "1.0";
  qdmi_version = text "1.2";
  site_address = λ i. 16 * (i + 1);
  rx = 256;
  ry = 272;
  rz = 288;
  cx = 304;
}

abbrev pub dev : DeviceState
dev = record { status = idle; gen = 7 }

abbrev pub platform : Platform
platform = record {
  build = build;
  rnd = record {
    draw_id = λ g. (42, suc g);
    draw_bit = λ g. (true, suc g);
    draw_real = λ g. (1, suc g);
  };
  fl = record {
    norm = λ a. a.re;
    add = λ a b. a + b;
    sqrt = λ a. a;
    divide = λ a n. a;
    log2_cut = λ n. n / 2;
  };
}

abbrev pub session : Session
session = record { token = text "t"; status = initialized }

pub build-IsLinked : IsLinked build
build-IsLinked = record {
  rx_real = omega arith;
  ry_real = omega arith;
  rz_real = omega arith;
  cx_real = omega arith;
  rx_ry = omega arith;
  rx_rz = omega arith;
  rx_cx = omega arith;
  ry_rz = omega arith;
  ry_cx = omega arith;
  rz_cx = omega arith;
}
