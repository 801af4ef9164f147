-- ===== src/Default/Counts.antt =====
-- What the reads in byte mode and the transfers in EPP mode of src/default.c count and store.
use libieee.Port.Returns
use libieee.Port.Status
use libieee.Common.{
  List, [], arith, leb, length, length-append, meets, pos, refl, suc, to_byte, truthy, zero, ℕ, ℤ,
  ◌++◌, ◌+◌, ◌/◌, ◌==◌, ◌∩◌, ◌∷◌, ◌≡◌, ◌≤◌,
}
use libieee.Default.Byte.{byte_loop, default_byte_read}
use libieee.Default.Epp.{
  default_epp_read_data, default_epp_write_data, epp_read_loop, epp_write_loop,
}
use libieee.Default.Poll.{poll_port, poll_port_loop}
use libieee.Default.Stored.{Fetched, all-Fetched, dropped-Fetched}
use libieee.Port.Clock.{Clock}
use libieee.Port.Machine.{Machine}
use libieee.Port.Methods.{Pins}
use libieee.Port.Quiet.{Keeps, Keeps-bind, QuietData, QuietPins, Same, Same-refl, Same-trans, Waits}
use libieee.Port.Returns.{Returns, returns}

-- The end of a write from machine `s`: the count is that of bytes of the buffer.
pub record Sent {W : Type 0} (buffer : List ℕ) (s : Machine W) (r : ℤ) (t : Machine W)
    : Type 0 where
  pub count : ℕ
  pub result : r ≡ pos count
  pub fits : count ≤ length buffer
  pub same : Same s t

module _ {W : Type 0} {pin : Pins W} (quiet : QuietPins pin) (line : QuietData pin) where
  module _ (clock : Clock W) (rounds : ℕ) (waits : Waits clock rounds 5) where
    poll_port_loop-Keeps :
        (n i mask result : ℕ) (s : Machine W)
        → Keeps s (poll_port_loop clock pin rounds n i mask result s)
    unfolding poll_port_loop
    poll_port_loop-Keeps zero i mask result s = returns (Same-refl s)
    poll_port_loop-Keeps (suc n) i mask result s = Keeps-bind (quiet.read_status s) λ status t.
        Returns.branch (to_byte status ∩ mask == result) _ _ t (λ _. returns (Same-refl t))
          λ _.
            Keeps-bind
              (Returns.branch (leb 2 i) _ _ t (λ _. waits t 5 (omega arith))
                λ _. returns (Same-refl t))
              λ _ u. poll_port_loop-Keeps n (i + 1) mask result u

    poll_port-Keeps :
        (mask result usec : ℕ) (s : Machine W)
        → Keeps s (poll_port clock pin rounds mask result usec s)
    unfolding poll_port
    poll_port-Keeps mask result usec s = poll_port_loop-Keeps (usec / 5 + 2) 0 mask result s

    epp_write_loop-Sent :
        (buffer rest : List ℕ) (ret : ℕ) (s₀ s : Machine W)
        → Same s₀ s
        → ret + length rest ≡ length buffer
        → Returns (Sent buffer s₀) (epp_write_loop clock rounds pin rest ret s)
    unfolding epp_write_loop
    epp_write_loop-Sent buffer [] ret s₀ s k h =
        returns (record { count = ret; result = refl; fits = omega (arith, h); same = k })
    epp_write_loop-Sent buffer (byte ∷ rest) ret s₀ s k h =
        Returns.bind (quiet.write_data s byte) λ _ t f.
          Returns.bind (quiet.frob_control t _ _) λ _ u g.
            Returns.bind (poll_port-Keeps Status.busy Status.busy 10 u) λ r v i.
              let now = Same-trans k (Same-trans f (Same-trans g i)) in
              Returns.branch (truthy r) _ _ v (λ _. returns (stop now))
                λ _. Returns.bind (quiet.frob_control v _ _) λ _ w j.
                  Returns.bind (poll_port-Keeps Status.busy 0 5 w) λ r x l.
                    let later = Same-trans now (Same-trans j l) in
                    Returns.branch (truthy r) _ _ x (λ _. returns (stop later))
                      λ _. epp_write_loop-Sent buffer rest (ret + 1) s₀ x later (omega (arith, h))
      where
        stop : {t : Machine W} → Same s₀ t → Sent buffer s₀ (pos ret) t
        stop k = record { count = ret; result = refl; fits = omega (arith, h); same = k }

    byte_loop-Fetched :
        (len n count : ℕ) (stored : List ℕ) (s₀ s : Machine W)
        → Same s₀ s
        → count ≡ length stored
        → count + n ≡ len
        → Returns (Fetched len s₀) (byte_loop clock rounds pin n count stored s)
    unfolding byte_loop
    byte_loop-Fetched len zero count stored s₀ s k e h =
        returns (all-Fetched stored k e (omega (arith, h)))
    byte_loop-Fetched len (suc n) count stored s₀ s k e h =
        Returns.bind (quiet.read_status s) λ status t f.
          Returns.branch (meets (to_byte status) Status.perror) _ _ t
            (λ _.
              Returns.bind (quiet.frob_control t _ _)
                λ _ u g. returns (stop (Same-trans k (Same-trans f g))))
            λ _. Returns.bind (line.data_dir t 1) λ _ u g.
              Returns.bind (quiet.frob_control u _ _) λ _ v i.
                Returns.bind (quiet.wait_status v _ _) λ r w j.
                  let now = Same-trans k (Same-trans f (Same-trans g (Same-trans i j))) in
                  Returns.branch (truthy r) _ _ w
                    (λ _.
                      Returns.bind (quiet.frob_control w _ _)
                        λ _ x l. returns (stop (Same-trans now l)))
                    λ _. Returns.bind (line.read_data w) λ reg x l.
                      Returns.bind (quiet.frob_control x _ _) λ _ y m.
                        Returns.bind (quiet.wait_status y _ _) λ r z o.
                          let later = Same-trans now (Same-trans l (Same-trans m o)) in
                          let sum = length-append stored (to_byte reg ∷ []) in
                          Returns.branch (truthy r) _ _ z
                            (λ _.
                              returns
                                (dropped-Fetched stored (to_byte reg) later e (omega (arith, h))))
                            λ _. Returns.bind (quiet.frob_control z _ _) λ _ a p.
                              Returns.bind (waits a 5 (omega arith)) λ _ b q.
                                Returns.bind (quiet.frob_control b _ _) λ _ c r'.
                                  byte_loop-Fetched len n (count + 1) (stored ++ to_byte reg ∷ [])
                                    s₀ c (Same-trans later (Same-trans p (Same-trans q r')))
                                    (omega (arith, e, sum)) (omega (arith, h))
      where
        stop : {t : Machine W} → Same s₀ t → Fetched len s₀ (pos count, stored) t
        stop k = all-Fetched stored k e (omega (arith, h))

    epp_read_loop-Fetched :
        (len n count : ℕ) (stored : List ℕ) (s₀ s : Machine W)
        → Same s₀ s
        → count ≡ length stored
        → count + n ≡ len
        → Returns (Fetched len s₀) (epp_read_loop clock rounds pin n count stored s)
    unfolding epp_read_loop
    epp_read_loop-Fetched len zero count stored s₀ s k e h =
        returns (all-Fetched stored k e (omega (arith, h)))
    epp_read_loop-Fetched len (suc n) count stored s₀ s k e h =
        Returns.bind (quiet.frob_control s _ _) λ _ t f.
          Returns.bind (quiet.wait_status t _ _) λ r u g.
            Returns.branch (truthy r) _ _ u
              (λ _.
                returns (all-Fetched stored (Same-trans k (Same-trans f g)) e (omega (arith, h))))
              λ _. Returns.bind (line.read_data u) λ reg v i.
                Returns.bind (quiet.frob_control v _ _) λ _ w j.
                  Returns.bind (quiet.wait_status w _ _) λ r x l.
                    let now =
                      Same-trans k (Same-trans f (Same-trans g (Same-trans i (Same-trans j l)))) in
                    let sum = length-append stored (to_byte reg ∷ []) in
                    Returns.branch (truthy r) _ _ x
                      (λ _. returns (dropped-Fetched stored (to_byte reg) now e (omega (arith, h))))
                      λ _.
                        epp_read_loop-Fetched len n (count + 1) (stored ++ to_byte reg ∷ []) s₀ x
                          now (omega (arith, e, sum)) (omega (arith, h))

    pub reads-Fetched :
        (flags len : ℕ) (s : Machine W)
        → Returns (Fetched len s) (default_byte_read clock rounds pin flags len s)
          × Returns (Fetched len s) (default_epp_read_data clock rounds pin flags len s)
    unfolding default_byte_read default_epp_read_data
    reads-Fetched flags len s = (
      byte_loop-Fetched len len 0 [] s s (Same-refl s) refl (omega arith),
      Returns.bind (quiet.frob_control s _ _) λ _ t e. Returns.bind (line.data_dir t 1) λ _ u f.
          Returns.bind (epp_read_loop-Fetched len len 0 [] s u (Same-trans e f) refl (omega arith))
            λ got v w. Returns.bind (line.data_dir v 0) λ _ x g. returns (record {
              count = w.count;
              result = w.result;
              stored = w.stored;
              dropped = w.dropped;
              fits = w.fits;
              same = Same-trans w.same g;
            }),
    )

    pub epp_write_data-Sent :
        (flags : ℕ) (buffer : List ℕ) (s : Machine W)
        → Returns (Sent buffer s) (default_epp_write_data clock rounds pin flags buffer s)
    unfolding default_epp_write_data
    epp_write_data-Sent flags buffer s = Returns.bind (quiet.frob_control s _ _) λ _ t e.
        Returns.bind (line.data_dir t 0)
          λ _ u f. epp_write_loop-Sent buffer buffer 0 s u (Same-trans e f) (omega arith)

    -- A read in byte mode and a read of EPP data return, and store no more bytes than the
    -- buffer holds; the count is that of the bytes stored, or one less where the last byte was
    -- not completed in time. A write of EPP data returns a number of bytes that is no more than
    -- the buffer has. The session is kept. The pin-level methods return, leave the session
    -- alone, and can read and turn the data lines, and the clock lets a delay of five
    -- microseconds pass. No result is an error: a transfer of no bytes gives 0.
    pub byte_and_epp-Counted :
        (flags len : ℕ) (buffer : List ℕ) (s : Machine W)
        → Returns (Fetched len s) (default_byte_read clock rounds pin flags len s)
          × Returns (Fetched len s) (default_epp_read_data clock rounds pin flags len s)
          × Returns (Sent buffer s) (default_epp_write_data clock rounds pin flags buffer s)
    byte_and_epp-Counted flags len buffer s =
        let (of_byte, of_epp) = reads-Fetched flags len s in
        (of_byte, of_epp, epp_write_data-Sent flags buffer s)
