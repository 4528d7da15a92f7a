-- ===== src/Device/State.antt =====
-- The structures of examples/device/src/cxx_device.cpp, and what the device takes from elsewhere.
-- A `double` is the number of its 64 bits.
use qdmi.Base.{ℕ, List, Bool, Option}
use qdmi.Base.Bytes.{Bytes}
use qdmi.Constants.{Code, DeviceStatus, JobStatus}

pub data SessionStatus : Type 0 where
  allocated initialized : SessionStatus

-- `CXX_QDMI_Device_Session_impl_d`.
pub record Session : Type 0 where
  pub token : Bytes
  pub status : SessionStatus

-- `std::complex<double>`.
pub record Amplitude : Type 0 where
  pub re : ℕ
  pub im : ℕ

-- `CXX_QDMI_Device_Job_impl_d::Result_data`.
pub record ResultData : Type 0 where
  pub shots : List Bytes
  pub state_vec : List Amplitude

-- `CXX_QDMI_Device_Job_impl_d`; `session` is the address of the session.
pub record Job : Type 0 where
  pub session : ℕ
  pub id : ℕ
  pub format : ℕ
  pub programs : List Bytes
  pub status : JobStatus
  pub num_shots : ℕ
  pub results : List ResultData

-- `CXX_QDMI_Device_State`; `gen` stands for the state of the generator, coded as a number.
pub record DeviceState : Type 0 where
  pub status : DeviceStatus
  pub gen : ℕ

-- What the build generates, and the addresses that the linker gives to the constant objects
-- SITE0 to SITE4 and RX, RY, RZ, CX.
pub record Build : Type 0 where
  pub device_id : Bytes
  pub device_version : Bytes
  pub qdmi_version : Bytes
  pub site_address : ℕ → ℕ
  pub rx : ℕ
  pub ry : ℕ
  pub rz : ℕ
  pub cx : ℕ

-- The calls of <random> on the generator: each returns the value drawn and the new state. Bits of
-- `double` values are numbers, as above.
pub record Random : Type 0 where
  pub draw_id : ℕ → ℕ × ℕ
  pub draw_bit : ℕ → Bool × ℕ
  pub draw_real : ℕ → ℕ × ℕ

-- The floating-point operations that the device uses: `std::norm`, `+`, `std::sqrt`, `/=`
-- and `std::log2` of a size, cut to an integer.
pub record Float : Type 0 where
  pub norm : Amplitude → ℕ
  pub add : ℕ → ℕ → ℕ
  pub sqrt : ℕ → ℕ
  pub divide : Amplitude → ℕ → Amplitude
  pub log2_cut : ℕ → ℕ

-- What a job's function leaves: the status code, the device, and the job behind the handle.
pub record Effect : Type 0 where
  pub code : Code
  pub dev : DeviceState
  pub job : Option Job
