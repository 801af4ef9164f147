-- ===== src/Io/Session.antt =====
-- What the pin-level methods of src/access_io.c leave of the port.
use libieee.Port.Control
use libieee.Port.E1284
use libieee.Port.Returns
use libieee.Common.{ap, ap₂, if◌then◌else◌, is_minus_one, meets, refl, ℕ, ◌==◌, ◌∩◌, ◌≡◌}
use libieee.Io.{
  data_dir, do_inb, do_outb, file_io_of, frob_control, frobbed, io_pins, raw_frob_control,
  read_data, read_status, wait_status, write_control, write_data,
}
use libieee.Port.Clock.{lookup_delay, timeval_signal_timeout}
use libieee.Port.Host.{Host}
use libieee.Port.Machine.{Machine, Port}
use libieee.Port.Quiet.{Keeps, Keeps-bind, QuietData, QuietPins, Same, Same-refl, session_of}
use libieee.Port.Returns.{Returns, returns}
use libieee.Port.Run.{pure}

-- Only the world changes.
pub record OnlyWorld {W : Type 0} (s t : Machine W) : Type 0 where
  pub port : t.port ≡ s.port
  pub live : t.live ≡ s.live

-- Only the world and the copy of the control register change.
pub record OnlyControl {W : Type 0} (s : Machine W) (ctr : ℕ) (t : Machine W) : Type 0 where
  pub port : t.port ≡ record (s.port) { ctr = ctr }
  pub live : t.live ≡ s.live

module _ {W : Type 0} (host : Host W) where
  pub do_outb-OnlyWorld :
      (val addr : ℕ) (s : Machine W) → Returns (λ _ t. OnlyWorld s t) (do_outb host val addr s)
  unfolding do_outb
  do_outb-OnlyWorld val addr s =
      Returns.branch (file_io_of s.port.fn) _ _ s
        (λ _.
          Returns.branch (is_minus_one (host.lseek s.port.fd addr s.world).0) _ _ _
            (λ _. returns (record { port = refl; live = refl }))
            λ _. returns (record { port = refl; live = refl }))
        λ _. returns (record { port = refl; live = refl })

  pub do_inb-OnlyWorld :
      (addr : ℕ) (s : Machine W) → Returns (λ _ t. OnlyWorld s t) (do_inb host addr s)
  unfolding do_inb
  do_inb-OnlyWorld addr s =
      Returns.branch (file_io_of s.port.fn) _ _ s
        (λ _.
          Returns.branch (is_minus_one (host.lseek s.port.fd addr s.world).0) _ _ _
            (λ _. returns (record { port = refl; live = refl }))
            λ _. returns (record { port = refl; live = refl }))
        λ _. returns (record { port = refl; live = refl })

  pub raw_frob_control-OnlyControl :
      (mask val : ℕ) (s : Machine W)
      → Returns
          (λ _ t. OnlyControl s (frobbed s.port.ctr mask val) t)
          (raw_frob_control host mask val s)
  unfolding raw_frob_control
  raw_frob_control-OnlyControl mask val s = Returns.bind (do_outb-OnlyWorld _ _ s) λ _ t e.
      returns (record {
        port = ap (λ (p : Port). record p { ctr = frobbed s.port.ctr mask val }) e.port;
        live = e.live;
      })

module _ {W : Type 0} {s t : Machine W} where
  pub OnlyWorld-Same : OnlyWorld s t → Same s t
  OnlyWorld-Same e = record { same = ap₂ session_of e.port e.live }

  pub OnlyControl-Same : {ctr : ℕ} → OnlyControl s ctr t → Same s t
  OnlyControl-Same e = record { same = ap₂ session_of e.port e.live }

module _ {W : Type 0} (host : Host W) where
  raw_frob_control-Keeps :
      (mask val : ℕ) (s : Machine W) → Keeps s (raw_frob_control host mask val s)
  raw_frob_control-Keeps mask val s =
      Returns.mono (raw_frob_control-OnlyControl host mask val s) λ _ t e. OnlyControl-Same e

  pub data_dir-Keeps : (reverse : ℕ) (s : Machine W) → Keeps s (data_dir host reverse s)
  unfolding data_dir
  data_dir-Keeps reverse s =
      Returns.bind {k = λ _. pure E1284.ok}
        (raw_frob_control-Keeps Control.reverse (if reverse == 0 then 0 else Control.reverse) s)
        λ _ t e. returns e

  pub write_control-Keeps : (reg : ℕ) (s : Machine W) → Keeps s (write_control host reg s)
  unfolding write_control
  write_control-Keeps reg s =
      Returns.branch' (meets reg Control.reverse) _ _ s _
        (λ _.
          Keeps-bind (Keeps-bind (data_dir-Keeps 1 s) λ _ t. returns (Same-refl t))
            λ _ t. raw_frob_control-Keeps Control.pins (reg ∩ Control.pins) t)
        λ _. raw_frob_control-Keeps Control.pins (reg ∩ Control.pins) s

  pub frob_control-Keeps : (mask val : ℕ) (s : Machine W) → Keeps s (frob_control host mask val s)
  unfolding frob_control
  frob_control-Keeps mask val s =
      Returns.branch' (meets mask Control.reverse) _ _ s _
        (λ _.
          Keeps-bind
            (Keeps-bind (data_dir-Keeps (val ∩ Control.reverse) s) λ _ t. returns (Same-refl t))
            λ _ t. raw_frob_control-Keeps (mask ∩ Control.pins) (val ∩ Control.pins) t)
        λ _. raw_frob_control-Keeps (mask ∩ Control.pins) (val ∩ Control.pins) s

  pub read_status-Keeps : (s : Machine W) → Keeps s (read_status host s)
  unfolding read_status
  read_status-Keeps s = Returns.bind (do_inb-OnlyWorld host _ s) λ _ t e. returns (OnlyWorld-Same e)

  write_data-Keeps : (s : Machine W) (byte : ℕ) → Keeps s (write_data host byte s)
  unfolding write_data
  write_data-Keeps s byte = Returns.mono (do_outb-OnlyWorld host _ _ s) λ _ t e. OnlyWorld-Same e

  pub io-QuietData : (rounds : ℕ) → QuietData (io_pins host rounds)
  unfolding read_data
  io-QuietData rounds = record {
    read_data = λ s. Returns.bind (do_inb-OnlyWorld host _ s) λ _ t e. returns (OnlyWorld-Same e);
    data_dir = λ s reverse. data_dir-Keeps reverse s;
  }

  -- The pin-level methods are quiet, if a wait of the length that the operations use returns.
  pub io-QuietPins :
      (rounds : ℕ)
      → ((s : Machine W) (mask val : ℕ)
          → Keeps s (wait_status host rounds mask val (lookup_delay timeval_signal_timeout) s))
      → QuietPins (io_pins host rounds)
  io-QuietPins rounds waits = record {
    write_data = write_data-Keeps;
    read_status = read_status-Keeps;
    wait_status = waits;
    write_control = λ s reg. write_control-Keeps reg s;
    frob_control = λ s mask val. frob_control-Keeps mask val s;
  }
