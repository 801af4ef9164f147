-- ===== src/Ports/Proc.antt =====
-- populate_from_parport and populate_from_sys_dev_parport of src/ports.c: the ports that the kernel
-- lists in /proc. The functions of the C library that read numbers are parameters.
pub mod Number
pub mod Short
use libieee.Port.Capable
use libieee.Common.{
  Bool, List, Option, [], drop, false, if◌then◌else◌, is_neg, leb, length, meets, negsuc, none, not,
  pos, some, suc, take, true, zero, ℕ, ℤ, ◌&&◌, ◌++◌, ◌-◌, ◌==◌, ◌||◌, ◌∷◌,
}
use libieee.Conf.Words.{text_eq}
use libieee.Detect.Calls.{Detecting, System, ask, pure, put, ◌>>=◌, ◌>>◌}
use libieee.Io.{dev_port_name}
use libieee.Port.Machine.{Text}
use libieee.Ports.{Entry, add_port}
use libieee.Ports.Paths.{
  base_addr_path, base_key, default_name, device_node, dots, fits_array, hardware_path, irq_key,
  irq_path, nodes_fit, proc_parport_path, sys_dev_parport_path, udevice_node,
}

-- The system: `directory` gives the names that opendir and readdir find, `strtoul` a number and what
-- follows it, and `strtol` a number, each in base 0.
pub record Lister (W : Type 0) : Type 0 where
  pub system : System W
  pub directory : Text → W → Option (List Text) × W
  pub strtoul : Text → ℕ × Text
  pub strtol : Text → ℤ

-- What the arrays of a loop's body hold before they are written.
pub record Unwritten : Type 0 where
  pub device : Text
  pub udevice : Text
  pub contents : Text

-- `p = strstr (text, key)`, and the text from `p + strlen (key)` on.
unfoldable pub after_key : Text → Text → Option Text
after_key key [] = none
after_key key (c ∷ text) =
    let later = after_key key text in
    if starts_with' key (c ∷ text) then some (drop (length key) (c ∷ text)) else later
  where
    starts_with' : Text → Text → Bool
    starts_with' [] t = true
    starts_with' (a ∷ s) [] = false
    starts_with' (a ∷ s) (b ∷ t) = a == b && starts_with' s t

abbrev pub is_digit : ℕ → Bool
is_digit c = leb b'0' c && leb c b'9'

abbrev char_at : ℕ → Text → ℕ
char_at n [] = 0
char_at zero (c ∷ name) = c
char_at (suc n) (c ∷ name) = char_at n name

-- `while (len > 0 && isdigit (de->d_name[len])) len--`
unfoldable pub skip_digits : ℕ → Text → ℕ
skip_digits zero name = zero
skip_digits (suc len) name =
    let fewer = skip_digits len name in if is_digit (char_at (suc len) name) then fewer else suc len

-- The number at the end of a name that is not empty, `de->d_name + len + 1`.
unfoldable pub number_of : Text → Text
unfolding skip_digits
number_of name = drop (suc (skip_digits (length name - 1) name)) name

module _ {W : Type 0} (lister : Lister W) (unwritten : Unwritten)
    (qsort : List Entry → List Entry) where
  -- A file's bytes, at most `size` of them, where it opens and is not empty.
  unfoldable pub contents_of : Text → ℕ → Detecting W (Option Text)
  contents_of name size = do
    fd ← ask (lister.system.open_read_only name)
    if is_neg fd then pure none else do
      (got, bytes) ← ask (lister.system.host.read fd size)
      put (lister.system.host.close_file fd)
      pure
          (elim got [ pos zero ↦ none | pos (suc n) ↦ some (take (suc n) bytes) | negsuc n ↦ none ])

  -- base and interrupt, from the text of a file "hardware"; its last character is cut off.
  unfoldable pub from_hardware : Option Text → ℕ × ℤ
  unfolding after_key
  from_hardware none = (0, negsuc 0)
  from_hardware (some text) =
      let line = take (length text - 1) text in
      (
        elim (after_key base_key line) [ none ↦ 0 | some p ↦ (lister.strtoul p).0 ],
        elim (after_key irq_key line) [ none ↦ negsuc 0 | some p ↦ lister.strtol p ],
      )

  -- The device of a port that is not reached through ppdev.
  abbrev other_device : ℕ → Text → Text
  other_device capabilities otherwise =
      if meets capabilities Capable.io
      then []
      else if meets capabilities Capable.dev_port
      then dev_port_name
      else otherwise

  -- Nothing, where a name does not fit in the arrays of the loop's body.
  unfoldable pub add_proc_port :
      (capabilities : ℕ) → Text → List Entry → Detecting W (Option (List Entry))
  unfolding contents_of from_hardware hardware_path device_node udevice_node
  add_proc_port capabilities name list =
      let ppdev = meets capabilities Capable.ppdev in
      if not (nodes_fit ppdev name && fits_array (hardware_path name)) then pure none else do
        text ← contents_of (hardware_path name) 499
        let device = if ppdev then device_node name else other_device capabilities unwritten.device
        let udevice = if ppdev then udevice_node name else unwritten.udevice
        let (base, interrupt) = from_hardware text
        pure (some ((add_port qsort name device (some udevice) base 0 interrupt list).1))

  -- base and hibase, from the text of a file "base-addr", which no null character ends.
  unfoldable pub from_base_addr : Option Text → ℕ × ℕ
  from_base_addr none = (0, 0)
  from_base_addr (some text) =
      let (base, rest) = lister.strtoul (text ++ unwritten.contents) in
      (
        base,
        if length rest == length (text ++ unwritten.contents) then 0 else (lister.strtoul rest).0,
      )

  unfoldable pub from_irq : Option Text → ℤ
  from_irq none = negsuc 0
  from_irq (some text) = lister.strtol (text ++ unwritten.contents)

  unfoldable pub add_sys_dev_port :
      (capabilities : ℕ) → Text → List Entry → Detecting W (Option (List Entry))
  unfolding contents_of from_base_addr from_irq number_of base_addr_path irq_path device_node
      udevice_node
  add_sys_dev_port capabilities name list =
      let number = number_of name in
      let ppdev = leb 1 (length number) && meets capabilities Capable.ppdev in
      if not
        (nodes_fit ppdev number && fits_array (base_addr_path name) && fits_array (irq_path name))
      then pure none
      else do
        base_text ← contents_of (base_addr_path name) 19
        irq_text ← contents_of (irq_path name) 19
        let device = if ppdev then device_node number else other_device capabilities []
        let udevice = if ppdev then udevice_node number else []
        let (base, hibase) = from_base_addr base_text
        pure (
            some
              ((add_port qsort name device (some udevice) base hibase (from_irq irq_text) list).1))

  -- The while loops over the names of the directory.
  unfoldable pub add_proc_ports :
      (capabilities : ℕ) → List Text → List Entry → Detecting W (Option (List Entry))
  unfolding add_proc_port
  add_proc_ports capabilities [] list = pure (some list)
  add_proc_ports capabilities (name ∷ names) list =
      if dots name then add_proc_ports capabilities names list else (do
        added ← add_proc_port capabilities name list
        elim added [ none ↦ pure none | some list ↦ add_proc_ports capabilities names list ])

  unfoldable pub add_sys_dev_ports :
      (capabilities : ℕ) → List Text → List Entry → Detecting W (Option (List Entry))
  unfolding add_sys_dev_port
  add_sys_dev_ports capabilities [] list = pure (some list)
  add_sys_dev_ports capabilities (name ∷ names) list =
      if dots name || text_eq name default_name
      then add_sys_dev_ports capabilities names list
      else (do
        added ← add_sys_dev_port capabilities name list
        elim added [ none ↦ pure none | some list ↦ add_sys_dev_ports capabilities names list ])

  unfoldable pub populate_from_parport :
      (capabilities : ℕ) → List Entry → Detecting W (Option (List Entry))
  unfolding add_proc_ports
  populate_from_parport capabilities list = do
    names ← ask (lister.directory proc_parport_path)
    elim names [ none ↦ pure (some list) | some names ↦ add_proc_ports capabilities names list ]

  unfoldable pub populate_from_sys_dev_parport :
      (capabilities : ℕ) → List Entry → Detecting W (Option (List Entry))
  unfolding add_sys_dev_ports
  populate_from_sys_dev_parport capabilities list = do
    names ← ask (lister.directory sys_dev_parport_path)
    elim names [ none ↦ pure (some list) | some names ↦ add_sys_dev_ports capabilities names list ]
