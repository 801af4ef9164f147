-- ===== src/DeviceId/Autoprobe.antt =====
-- The Device ID as src/deviceid.c makes it of a file "autoprobe", which has the text alone.
use libieee.Common.{
  Bool-cases, List, [], ap, arith, drop, false, inl, inr, length, ltb, pos, refl, some, suc, take,
  take-append, ℕ, ℤ, ◌*◌, ◌++◌, ◌+◌, ◌<◌, ◌∷◌, ◌≡◌,
}
use libieee.DeviceId.{
  Filled, Reader, after_autoprobe, autoprobe, file_of, get_from_proc_parport, is_suspicious,
  proc_parport_dir, read_file, under_one,
}
use libieee.DeviceId.Buffer.{byte_at, size_sub, store_at, terminated, with_length}
use libieee.Port.Machine.{Machine, Text}
use libieee.Port.Returns.{Returns, returns}
use libieee.Port.Run.{done}

-- A byte stored right behind the text leaves the text.
take-store_at :
    (bytes more byte : List ℕ)
    → take (length bytes) (store_at (length bytes) byte (bytes ++ more)) ≡ bytes
unfolding store_at
take-store_at [] more byte = refl
take-store_at (b ∷ bytes) more byte = ap (◌∷◌ b) (take-store_at bytes more byte)

module _ {W : Type 0} (reader : Reader W) (len : ℕ) (a b : ℕ) (rest : List ℕ) where
  -- A text behind the two bytes of the length, with a zero behind it if there is room.
  text_kept :
      (bytes : List ℕ)
      → (tail : List ℕ) × (terminated (pos (2 + length bytes)) len (store_at 2 bytes (a ∷ b ∷ rest))
          ≡ a ∷ b ∷ tail)
        × (take (length bytes) tail ≡ bytes)
  unfolding store_at terminated
  text_kept bytes =
      let e : 2 + length bytes ≡ suc (suc (length bytes)) = omega arith in
      elim (Bool-cases (ltb (2 + length bytes) len)) [
        | inl g ↦ (
          store_at (length bytes) (0 ∷ []) (bytes ++ drop (length bytes) rest),
          rw g (rw e refl),
          take-store_at bytes (drop (length bytes) rest) (0 ∷ []),
        )
        | inr g ↦ (
          bytes ++ drop (length bytes) rest,
          rw g refl,
          take-append bytes (drop (length bytes) rest),
        )
      ]

  -- What a caller finds of a Device ID of this text: its length, from the two bytes, and itself.
  pub record Found (bytes : List ℕ) (r : Filled) : Type 0 where
    pub got : r.0 ≡ pos (length bytes)
    pub length_bytes : byte_at 0 r.1 * 256 + byte_at 1 r.1 ≡ length bytes
    pub text : take (length bytes) (drop 2 r.1) ≡ bytes

  after_autoprobe-Found :
      (bytes : List ℕ)
      → under_one (pos (length bytes)) ≡ false
      → length bytes < 65536
      → Found bytes (after_autoprobe reader len (a ∷ b ∷ rest) (pos (length bytes), bytes))
  unfolding with_length byte_at
  after_autoprobe-Found bytes some_text few =
      let (tail, shape, kept) = text_kept bytes in
      rw some_text (rw shape (record { got = refl; length_bytes = omega arith; text = kept }))

  -- A file "autoprobe" of /proc/parport holds the text of a Device ID, of fewer than 65536 bytes:
  -- read into a buffer of two bytes at least, it is found behind two bytes, which give its
  -- length, as the result does. The read gives the whole text. Neither the result nor the length
  -- counts those two bytes.
  pub autoprobe-Found :
      (name : Text) (daisy : ℤ) (bytes : List ℕ) (s t : Machine W)
      → is_suspicious name ≡ false
      → read_file reader (file_of reader proc_parport_dir name autoprobe daisy) (size_sub len 2) s
        ≡ done (some (pos (length bytes), bytes)) t
      → under_one (pos (length bytes)) ≡ false
      → length bytes < 65536
      → Returns
          (λ r _. Found bytes r)
          (get_from_proc_parport reader name daisy len (a ∷ b ∷ rest) s)
  unfolding get_from_proc_parport
  autoprobe-Found name daisy bytes s t fine reads some_text few =
      rw fine (rw reads (returns (after_autoprobe-Found bytes some_text few)))
