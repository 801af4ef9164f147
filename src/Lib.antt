-- ===== src/Lib.antt =====
-- libieee1284, a library for parallel ports with IEEE 1284.
--
-- A program finds ports (src/ports.c), opens one (src/state.c) and calls the functions of
-- src/interface.c. Each of these looks at the port's flags and then calls a method from the table
-- that the open copied into the port: that of src/access_io.c, src/access_ppdev.c or
-- src/access_lpt.c. The tables fill what they do not do themselves with the functions of
-- src/default.c, which make the IEEE 1284 protocol of the pin-level methods.
--
-- The files:
-- - Common: shared names, lists, integers, 8-bit masks and their bits.
-- - Port: the data of src/detect.h and include/ieee1284.h.in. Port/Machine has struct
--   parport_internal; Port/Run the runs of functions over it; Port/Methods the table of methods;
--   Port/Clock src/delay.c, src/delay.h and the `delay` of src/access.h; Port/Host the system
--   calls, which are a parameter. Port/Returns, Port/Quiet, Port/Time, Port/Delay, Port/Life
--   and Port/Polling have what proofs about runs share.
-- - Default: src/default.c. Poll has the polling loops, Link negotiation, termination and the
--   direction of an ECP link, and Nibble, Compat, Byte, Epp, EcpRead and EcpWrite the block
--   transfers. The functions take the pin-level methods, and the methods of the table that they
--   call by name (fn->terminate, fn->ecp_rev_to_fwd and fn->ecp_fwd_to_rev) as runs.
-- - Io: src/access_io.c as it is compiled for Linux with sys/io.h, with its table.
-- - Ppdev: src/access_ppdev.c with the numbers of src/parport.h and src/ppdev.h that it uses. Pins
--   has the pin-level methods, Modes the mode of the device, Opening init and the claim, and Blocks
--   the transfers and the table. A request to the device is a call of the host.
-- - Tables: which table of methods a port has.
-- - Interface: src/interface.c, and deref_port of src/ports.c. A call through a method pointer
--   that is NULL crashes, and the functions that test the pointer are written with that test.
-- - State: init_port and ieee1284_open of src/state.c.
-- - Ports: src/ports.c. The module itself has add_port and the guesses, Ports/Proc the readers of
--   /proc, Ports/Paths the names that they put into arrays, Ports/Nt the ports of Windows NT, and
--   Ports/Find the search for ports and its end.
-- - Conf: src/conf.c. Words has the words that it looks for, Lexer get_token, and Reader what the
--   words mean. A file is the list of the lines that fgets gives.
-- - Detect: src/detect.c, over the system calls of Detect/Calls.
-- - DeviceId: src/deviceid.c. Buffer has the caller's buffer and the lengths.
-- - Lpt: src/access_lpt.c with src/par_nt.h, as it is compiled for Cygwin on Windows NT.
-- - System: the tables of the library on Linux together with what src/detect.c finds, and how their
--   methods end.
-- - Python: src/ieee1284module.c, the extension module for Python. Methods and Transfers have the
--   methods of a port, Calls the table of them, and Find the search with the life of its objects.
-- - Solaris: the driver solaris_io/iop.c, and the branches for Solaris of src/access_io.c, which
--   reach the I/O ports through it.
-- - Bitmap: the bitmaps of I/O ports that src/access_io.c changes on OpenBSD and NetBSD.
-- - Debug: src/debug.c, what it prints on stderr. The other parts leave out the calls of it, which
--   change nothing but its own variables.
-- - Tests: a simulated host, and the theorems at concrete inputs.
--
-- A function is a run: from a machine, which holds the port, whether it is still allocated, and
-- the world, it comes to an outcome, which is done with a result and a machine, a crash, or out of
-- rounds. A block read gives back its result and the bytes stored at the start of the buffer; a
-- pointer to caps that may be NULL is an Option, and so is what is stored through it.
--
-- Loops that wait for the clock or the peripheral run for a number of rounds. The polls with a
-- deadline need as many rounds as the timeout has microseconds and one more, on a clock that ticks
-- while select sleeps; udelay as many for each microsecond as the clock is looked at before it goes
-- on, and one. An ECP read takes two bytes of the peripheral for a byte of the buffer at most, a
-- count and its byte, and an ECP write tries a byte once more for each recovery that the peripheral
-- asks for.
--
-- Not modelled: the branches for systems other than Linux, but for Windows NT in src/access_lpt.c
-- and src/ports.c and for Solaris and the bitmaps of OpenBSD and NetBSD in src/access_io.c; the
-- messages that the library prints where it calls debugprintf; the type object, the getters and the
-- constants of src/ieee1284module.c, which are tables; and what solaris_io/iop.c tells the kernel
-- of itself. Allocations succeed in the model.
-- A timeout that a wait may change is passed by value, as neither wait_status changes it, though the
-- select of do_nack_handshake may. char is signed and size_t has 64 bits.
pub mod Common
pub mod Port
pub mod Debug
pub mod Default
pub mod Io
pub mod Ppdev
pub mod Interface
pub mod State
pub mod Conf
pub mod Detect
pub mod DeviceId
pub mod Lpt
pub mod Ports
pub mod Python
pub mod Bitmap
pub mod Solaris
pub mod System
pub mod Tables
mod Tests
