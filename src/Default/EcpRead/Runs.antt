-- ===== src/Default/EcpRead/Runs.antt =====
-- The run-length code of an ECP link, as default_ecp_read_data of src/default.c decodes it.
use libieee.Port.Status
use libieee.Common.{
  List, [], append-nil, append_assoc, ap₂, arith, false, length, length-append, length-replicate,
  ltb, meets, none, refl, replicate, some, sym, ℕ, ◌++◌, ◌+◌, ◌-◌, ◌∙◌, ◌∷◌, ◌≡◌, ◌≤◌,
}
use libieee.Default.EcpRead.{Reader, Verdict, accept, classify, stop, store, take_command}

-- What a peripheral sends: a byte, or a byte that is repeated once more often than the count says.
pub data Item : Type 0 where
  plain : (byte : ℕ) → Item
  repeated : (times byte : ℕ) → Item

-- The bytes that the items stand for.
abbrev pub expand : List Item → List ℕ
expand [] = []
expand (plain byte ∷ rest) = byte ∷ expand rest
expand (repeated times byte ∷ rest) = replicate (times + 1) byte ++ expand rest

-- The status lines and bytes on the link: a count goes with Busy low, in the register's sense, a
-- byte with Busy high; the byte after a count goes with any status.
abbrev pub wire : ℕ → List Item → List (ℕ × ℕ)
wire status [] = []
wire status (plain byte ∷ rest) = (Status.busy, byte) ∷ wire status rest
wire status (repeated times byte ∷ rest) = (0, times) ∷ (status, byte) ∷ wire status rest

-- A count has the top bit clear.
abbrev pub IsCoded : List Item → Type 0
IsCoded [] = Unit {0}
IsCoded (plain byte ∷ rest) = IsCoded rest
IsCoded (repeated times byte ∷ rest) = (meets times 0x80 ≡ false) × IsCoded rest

-- The loop's variables after what is on the link, if every byte is acknowledged in time.
abbrev pub decode : ℕ → Reader → List (ℕ × ℕ) → Verdict
decode len r [] = Verdict.accept r
decode len r ((status, byte) ∷ rest) = elim (classify len r status byte) [
  | stop ↦ Verdict.stop
  | accept r' ↦ decode len r' rest
]

one-classify :
    (len count : ℕ) (stored : List ℕ) (byte : ℕ)
    → classify len (record { count = count; rle = none; stored = stored }) Status.busy byte
      ≡ Verdict.accept (record { count = count + 1; rle = none; stored = stored ++ byte ∷ [] })
unfolding classify store
one-classify len count stored byte = refl

count-classify :
    (len count : ℕ) (stored : List ℕ) (times : ℕ)
    → meets times 0x80 ≡ false
    → count + (times + 1) ≤ len
    → classify len (record { count = count; rle = none; stored = stored }) 0 times
      ≡ Verdict.accept (record { count = count; rle = some (times + 1); stored = stored })
unfolding classify take_command
count-classify len count stored times h fits =
    let short : ltb (len - count) (times + 1) ≡ false = ground arith in rw h (rw short refl)

read_so_far :
    (count : ℕ) (stored : List ℕ)
    → Verdict.accept (record { count = count; rle = none; stored = stored })
      ≡ Verdict.accept (record { count = count + 0; rle = none; stored = stored ++ [] })
read_so_far count stored =
    ap₂ (λ (n : ℕ) (xs : List ℕ). Verdict.accept (record { count = n; rle = none; stored = xs }))
      (omega arith) (sym (append-nil stored))

-- Bytes and then more bytes are all of them together.
moved :
    (count m n total : ℕ) (stored xs ys : List ℕ)
    → m + n ≡ total
    → Verdict.accept (record { count = (count + m) + n; rle = none; stored = (stored ++ xs) ++ ys })
      ≡ Verdict.accept (record { count = count + total; rle = none; stored = stored ++ (xs ++ ys) })
moved count m n total stored xs ys e =
    ap₂ (λ (k : ℕ) (zs : List ℕ). Verdict.accept (record { count = k; rle = none; stored = zs }))
      (omega arith) (append_assoc stored xs ys)

-- What a peripheral sends as items, counts and bytes, is decoded to the bytes that the items stand
-- for, if the counts are seven-bit numbers and the buffer has room for all of the bytes: they are
-- stored after what was there, counted, and no count is left waiting.
pub decode-wire :
    (len status : ℕ) (items : List Item) (count : ℕ) (stored : List ℕ)
    → IsCoded items
    → count + length (expand items) ≤ len
    → decode len (record { count = count; rle = none; stored = stored }) (wire status items)
      ≡ Verdict.accept (record {
        count = count + length (expand items);
        rle = none;
        stored = stored ++ expand items;
      })
unfolding classify store
decode-wire len status [] count stored coded fits = read_so_far count stored
decode-wire len status (plain byte ∷ rest) count stored coded fits =
    decode-wire len status rest (count + 1) (stored ++ byte ∷ []) coded (omega arith)
    ∙ moved count 1 (length (expand rest)) _ stored (byte ∷ []) (expand rest) (omega arith)
decode-wire len status (repeated times byte ∷ rest) count stored coded fits =
    let many = length-replicate (times + 1) byte in
    let sum = length-append (replicate (times + 1) byte) (expand rest) in
    rw (decode, count-classify len count stored times coded.0 (omega (arith, many, sum)))
      (decode-wire len status rest (count + (times + 1)) (stored ++ replicate (times + 1) byte)
          coded.1 (omega (arith, many, sum))
        ∙ moved count (times + 1) (length (expand rest)) _ stored (replicate (times + 1) byte)
            (expand rest) (omega (arith, many, sum)))
