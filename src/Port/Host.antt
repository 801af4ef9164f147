-- ===== src/Port/Host.antt =====
-- The system that the access methods call: input and output instructions, files, and the requests
-- that a ppdev device takes by ioctl. None of it is in the repository; it is a parameter of the
-- model. Each call takes the world and returns the next one.
use Prim.Native.Nat.{ℕ}
use libieee.Common.{List, ℕ, ℤ}
use libieee.Port.Clock.{Clock, TimeVal}
use libieee.Port.Machine.{Text}

-- The ioctl requests of src/ppdev.h, with the values that are passed in.
pub data Request : Type 0 where
  ppnegot : ℤ → Request
  ppsetmode ppwcontrol ppwdata ppdatadir ppwctlonirq ppsetflags : ℕ → Request
  ppfcontrol : (mask val : ℕ) → Request
  pprstatus pprcontrol pprdata ppclaim pprelease ppexcl ppclrirq ppgetmodes : Request

-- `ioctl` and `read` return the result of the call, and what the call stores.
-- `eagain` to `o_nonblock` are the numbers of the system's headers.
pub record Host (W : Type 0) : Type 0 where
  pub clock : Clock W
  pub inb : ℕ → W → ℕ × W
  pub outb : ℕ → ℕ → W → W
  pub ioperm : ℕ → ℕ → ℕ → W → ℤ × W
  pub open_file : Text → W → ℤ × W
  pub close_file : ℤ → W → W
  pub lseek : ℤ → ℕ → W → ℤ × W
  pub read : ℤ → ℕ → W → (ℤ × List ℕ) × W
  pub write : ℤ → List ℕ → W → ℤ × W
  pub ioctl : ℤ → Request → W → (ℤ × ℕ) × W
  pub errno : W → ℕ
  pub eagain : ℕ
  pub eio : ℕ
  pub enxio : ℕ
  pub o_nonblock : ℕ
  pub getfl : ℤ → W → ℤ × W
  pub setfl : ℤ → ℕ → W → ℤ × W
  pub select_read : ℤ → TimeVal → W → ℤ × W
  pub gettime : ℤ → W → TimeVal × W
  pub settime : ℤ → TimeVal → W → W
