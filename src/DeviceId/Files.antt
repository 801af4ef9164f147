-- ===== src/DeviceId/Files.antt =====
-- The files of /proc, as src/deviceid.c reads them into the buffer.
use libieee.Port.Capable
use libieee.Port.Returns
use libieee.Common.{
  Bool-cases, List, Option, [], arith, inl, inr, is_neg, length, meets, nat_of, none, pos, refl,
  some, ℕ, ℤ, ◌+◌, ◌<◌, ◌∙◌, ◌∷◌, ◌≡◌, ◌≤◌,
}
use libieee.DeviceId.{
  Filled, Reader, after_deviceid, from_autoprobe, from_files, from_old_autoprobe,
  get_from_proc_parport, get_from_sys_dev_parport, is_suspicious, or_old_autoprobe, read_file,
  under_one,
}
use libieee.DeviceId.Buffer.{
  length-store_at, length-terminated, length-with_length, size_range, size_sub, store_at,
}
use libieee.Port.Life.{lifetime}
use libieee.Port.Machine.{Machine, Table, Text}
use libieee.Port.Methods.{Methods}
use libieee.Port.Returns.{Returns, returns}

-- A read stores no more bytes than it is asked for, and reports no more.
pub record Reads {W : Type 0} (reader : Reader W) : Type 0 where
  pub stored : (fd : ℤ) (size : ℕ) (w : W) → length (reader.host.read fd size w).0.1 ≤ size
  pub reported : (fd : ℤ) (size : ℕ) (w : W) → nat_of (reader.host.read fd size w).0.0 ≤ size

abbrev Sized : ℕ → Option (ℤ × List ℕ) → Type 0
Sized size none = Unit {0}
Sized size (some (got, bytes)) = (length bytes ≤ size) × (nat_of got ≤ size)

module _ {W : Type 0} (reader : Reader W) (reads : Reads reader) where
  read_file-Sized :
      (name : Text) (size : ℕ) (s : Machine W)
      → Returns (λ r t. (lifetime t ≡ lifetime s) × Sized size r) (read_file reader name size s)
  unfolding read_file
  read_file-Sized name size s =
      let opened = reader.open_read_only name s.world in
      Returns.branch (is_neg opened.0) _ _ _ (λ _. returns (refl, tt))
        λ _.
          returns
            (refl, (reads.stored opened.0 size opened.1, reads.reported opened.0 size opened.1))

  module _ (len : ℕ) (room : 3 ≤ len) (in_range : len < size_range) (buffer : List ℕ)
      (h : length buffer ≡ len) where
    from_autoprobe-length :
        (file : Option (ℤ × List ℕ))
        → Sized (size_sub len 2) file
        → length ((from_autoprobe reader len buffer file).1) ≡ len
    from_autoprobe-length none sized = h
    from_autoprobe-length (some (got, bytes)) (fits, counted) =
        let behind : length (store_at 2 bytes buffer) ≡ len =
          length-store_at 2 bytes buffer (omega arith) ∙ h in
        let ended = length-terminated (pos (2 + nat_of got)) len _ behind in
        elim (Bool-cases (under_one got)) [
          | inl e ↦ rw e behind
          | inr e ↦ rw e (length-with_length (nat_of got) _ (omega (arith, ended)) ∙ ended)
        ]

    after_deviceid-length :
        (got : ℤ) (bytes : List ℕ)
        → length bytes ≤ len
        → length ((after_deviceid reader len buffer (got, bytes)).1) ≡ len
    after_deviceid-length got bytes fits =
        let stored : length (store_at 0 bytes buffer) ≡ len =
          length-store_at 0 bytes buffer (omega arith) ∙ h in
        elim (Bool-cases (under_one got)) [
          | inl e ↦ rw e stored
          | inr e ↦ rw e (length-terminated got len _ stored)
        ]

    from_old_autoprobe-length :
        (file : Option (ℤ × List ℕ))
        → Sized (size_sub len 3) file
        → length ((from_old_autoprobe reader buffer file).1) ≡ len
    from_old_autoprobe-length none sized = h
    from_old_autoprobe-length (some (got, bytes)) (fits, counted) =
        let behind : length (store_at 2 bytes buffer) ≡ len =
          length-store_at 2 bytes buffer (omega arith) ∙ h in
        let ended : length (store_at (2 + nat_of got) (0 ∷ []) (store_at 2 bytes buffer)) ≡ len =
          length-store_at (2 + nat_of got) (0 ∷ []) _ (omega (arith, behind)) ∙ behind in
        elim (Bool-cases (under_one got)) [
          | inl e ↦ rw e behind
          | inr e ↦ rw e (length-with_length (nat_of got) _ (omega (arith, ended)) ∙ ended)
        ]

    -- What a read of /proc leaves: the port as it was, and a buffer of the same length.
    abbrev pub ReadsInto : Machine W → Filled → Machine W → Type 0
    ReadsInto s r t = (lifetime t ≡ lifetime s) × (length r.1 ≡ len)

    get_from_proc_parport-ReadsInto :
        (name : Text) (daisy : ℤ) (s : Machine W)
        → Returns (ReadsInto s) (get_from_proc_parport reader name daisy len buffer s)
    unfolding get_from_proc_parport
    get_from_proc_parport-ReadsInto name daisy s =
        Returns.branch (is_suspicious name) _ _ s (λ _. returns (refl, h))
          λ _.
            Returns.bind (read_file-Sized _ (size_sub len 2) s)
              λ file t e. returns (e.0, from_autoprobe-length file e.1)

    or_old_autoprobe-ReadsInto :
        (name : Text) (daisy : ℤ) (file : Option (ℤ × List ℕ)) (s t : Machine W)
        → lifetime t ≡ lifetime s
        → Sized len file
        → Returns (ReadsInto s) (or_old_autoprobe reader name daisy len buffer file t)
    unfolding or_old_autoprobe
    or_old_autoprobe-ReadsInto name daisy (some (got, bytes)) s t same (fits, _) =
        returns (same, after_deviceid-length got bytes fits)
    or_old_autoprobe-ReadsInto name daisy none s t same sized =
        Returns.bind (read_file-Sized _ (size_sub len 3) t)
          λ file u e. returns (e.0 ∙ same, from_old_autoprobe-length file e.1)

    get_from_sys_dev_parport-ReadsInto :
        (name : Text) (daisy : ℤ) (s : Machine W)
        → Returns (ReadsInto s) (get_from_sys_dev_parport reader name daisy len buffer s)
    unfolding get_from_sys_dev_parport
    get_from_sys_dev_parport-ReadsInto name daisy s =
        Returns.branch (is_suspicious name) _ _ s (λ _. returns (refl, h))
          λ _.
            Returns.bind (read_file-Sized _ len s)
              λ file t e. or_old_autoprobe-ReadsInto name daisy file s t e.0 e.1

    pub from_files-ReadsInto :
        (methods : Table → Methods W) (capabilities : ℕ) (name : Text) (daisy : ℤ) (s : Machine W)
        → Returns (ReadsInto s) (from_files methods reader capabilities name daisy len buffer s)
    unfolding from_files
    from_files-ReadsInto methods capabilities name daisy s =
        Returns.branch (meets capabilities Capable.proc_sys_dev_parport) _ _ s
          (λ _. get_from_sys_dev_parport-ReadsInto name daisy s)
          λ _.
            Returns.branch (meets capabilities Capable.proc_parport) _ _ s
              (λ _. get_from_proc_parport-ReadsInto name daisy s) λ _. returns (refl, h)
