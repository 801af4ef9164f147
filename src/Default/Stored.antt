-- ===== src/Default/Stored.antt =====
-- What a read of src/default.c that counts and stores bytes comes to, where it ends.
-- The end of a read from machine `s` into a buffer of `len` bytes: the count is that of the bytes
-- stored, or one less, and the session is kept.
use libieee.Common.{List, [], arith, length, length-append, pos, refl, ℕ, ◌++◌, ◌+◌, ◌∷◌, ◌≡◌, ◌≤◌}
use libieee.Port.Machine.{Machine}
use libieee.Port.Methods.{Received}
use libieee.Port.Quiet.{Same}

pub record Fetched {W : Type 0} (len : ℕ) (s : Machine W) (got : Received) (t : Machine W)
    : Type 0 where
  pub count : ℕ
  pub result : got.0 ≡ pos count
  pub stored : count ≤ length (got.1)
  pub dropped : length (got.1) ≤ count + 1
  pub fits : length (got.1) ≤ len
  pub same : Same s t

module _ {W : Type 0} {len count : ℕ} {s t : Machine W} (stored : List ℕ) where
  pub all-Fetched :
      Same s t → count ≡ length stored → count ≤ len → Fetched len s (pos count, stored) t
  all-Fetched k e h = record {
    count = count;
    result = refl;
    stored = omega (arith, e);
    dropped = omega (arith, e);
    fits = omega (arith, e, h);
    same = k;
  }

  -- The last byte is stored and not counted.
  pub dropped-Fetched :
      (byte : ℕ)
      → Same s t
      → count ≡ length stored
      → count + 1 ≤ len
      → Fetched len s (pos count, stored ++ byte ∷ []) t
  dropped-Fetched byte k e h =
      let sum = length-append stored (byte ∷ []) in
      record {
        count = count;
        result = refl;
        stored = omega (arith, e, sum);
        dropped = omega (arith, e, sum);
        fits = omega (arith, e, h, sum);
        same = k;
      }
