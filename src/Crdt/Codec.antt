-- ===== src/Crdt/Codec.antt =====
-- Reading a register back, and which buffers are read as a register.
use zenith_db.Prelude.{
  ℕ, zero, suc, ◌-◌, true, ltb, Bool-cases, inl, inr, ◌⊎◌, drop, ◌%◌, length-drop, [], ◌+◌, ◌^◌,
  ◌≤◌, ◌<◌, ◌++◌, some, ◌≡◌, ◌↔◌, refl, ap, arith, length, take, length-append, take-append,
  drop-append, append-nil,
}
use zenith_db.Bytes.{Bytes}
use zenith_db.Bytes.Words.{le_bytes, le_value, read_word, length_word, drop-le_bytes}
use zenith_db.VectorClock.{serialize_clock, deserialize_clock}
use zenith_db.VectorClock.Codec.{Fits, deserialize_clock-serialize_clock}
use zenith_db.Crdt.{
  LwwRegister, register, length_error, past_end, returned, entries_within, clock_within, serialize,
  decode, deserialize,
}

-- A view whose bytes are all there is read within them, whatever they are.
entries_within_lem :
    (i len : ℕ) (rest : Bytes) → len ≤ length rest → entries_within i len rest ≡ true
unfolding entries_within
entries_within_lem zero len rest q = refl
entries_within_lem (suc i) len rest q =
    let n = le_value (take 4 rest) + 12 in
    let e : n ≤ len → entries_within i (len - n) (drop n rest) ≡ true =
      λ more. entries_within_lem i (len - n) (drop n rest) (omega (arith, length-drop n rest)) in
    elim (Bool-cases (ltb len n)) [
      | inl short ↦ ground (arith, short)
      | inr long ↦ ground (arith, long, e (ground (arith, long)))
    ]

clock_within_lem : (len : ℕ) (rest : Bytes) → len ≤ length rest → clock_within len rest ≡ true
unfolding clock_within
clock_within_lem len rest q = elim (Bool-cases (ltb len 4)) [
  | inl short ↦ ground (arith, short)
  | inr long ↦ ground (
    arith,
    long,
    entries_within_lem (le_value (take 4 rest)) (len - 4) (drop 4 rest)
        (ground (arith, long, length-drop 4 rest)),
  )
]

-- A buffer that holds the clock that it claims is read.
decode_whole :
    (bytes : Bytes) (vc_len : ℕ)
    → le_value (take 4 bytes) ≡ vc_len
    → 4 + vc_len ≤ length bytes
    → decode bytes
      ≡ register (record {
        value = drop vc_len (drop 4 bytes);
        clock = deserialize_clock (take vc_len (drop 4 bytes));
      })
unfolding decode
decode_whole bytes vc_len word there =
    rw (word, clock_within_lem vc_len (drop 4 bytes) (omega (arith, length-drop 4 bytes)))
      (ground arith)

-- A register is read back as it was written, if its clock fits the format and the clock's bytes
-- leave room for the length in a 32-bit sum.
pub deserialize-serialize :
    (r : LwwRegister)
    → Fits r.clock
    → length (serialize_clock r.clock) + 4 < 2 ^ 32
    → deserialize (serialize r) ≡ some r
unfolding deserialize serialize
deserialize-serialize r fits room =
    let vc = serialize_clock r.clock in
    let n = length vc in
    let bytes = le_bytes 4 n ++ (vc ++ r.value) in
    let e : deserialize_clock vc ≡ r.clock =
      rw append-nil at (deserialize_clock-serialize_clock r.clock [] fits) in
    let whole =
      decode_whole bytes n (read_word 4 n (vc ++ r.value) (omega arith))
        (omega (arith, length_word 4 n (vc ++ r.value), length-append vc r.value)) in
    ap returned (
      rw
        (
          drop-le_bytes 4 n (vc ++ r.value),
          take-append n vc r.value refl,
          drop-append n vc r.value refl,
          e,
        )
        at whole)

module _ (bytes : Bytes) (word : le_value (take 4 bytes) < 2 ^ 32) where
  decode_short :
      (length bytes < 4) ⊎ (length bytes < (4 + le_value (take 4 bytes)) % 2 ^ 32)
      → decode bytes ≡ register (record { value = bytes; clock = [] })
  unfolding decode
  decode_short (inl short) = ground arith
  decode_short (inr short) = ground arith

  decode_refused :
      4 ≤ length bytes
      → 2 ^ 32 ≤ 4 + le_value (take 4 bytes)
      → length bytes < 4 + le_value (take 4 bytes)
      → (decode bytes ≡ past_end) ⊎ (decode bytes ≡ length_error)
  unfolding decode
  decode_refused four wraps short =
      elim (Bool-cases (clock_within (le_value (take 4 bytes)) (drop 4 bytes))) [
        | inl within ↦ inr (rw within (ground arith))
        | inr beyond ↦ inl (rw beyond (ground arith))
      ]

  decode_read :
      (4 + le_value (take 4 bytes) < 2 ^ 32) ⊎ (4 + le_value (take 4 bytes) ≤ length bytes)
      → (r : LwwRegister) × (decode bytes ≡ register r)
  decode_read h = elim (Bool-cases (ltb (length bytes) (4 + le_value (take 4 bytes)))) [
    | inl less ↦ (_, decode_short (inr (ground (arith, less, h))))
    | inr more ↦ (_, decode_whole bytes _ refl (ground (arith, more)))
  ]

  decode_returns :
      (r : LwwRegister)
      → decode bytes ≡ register r
      → (length bytes < 4)
        ⊎ ((4 + le_value (take 4 bytes) < 2 ^ 32) ⊎ (4 + le_value (take 4 bytes) ≤ length bytes))
  decode_returns r e = elim (Bool-cases (ltb (length bytes) 4)) [
    | inl short ↦ inl (ground (arith, short))
    | inr four ↦ elim (Bool-cases (ltb (4 + le_value (take 4 bytes)) (2 ^ 32))) [
      | inl room ↦ inr (inl (ground (arith, room)))
      | inr wraps ↦ elim (Bool-cases (ltb (length bytes) (4 + le_value (take 4 bytes)))) [
        | inl less ↦
            absurd
              (elim (decode_refused (ground (arith, four)) (ground (arith, wraps))
                (ground (arith, less))) [ inl a ↦ cc (e, a) | inr b ↦ cc (e, b) ])
        | inr more ↦ inr (inr (ground (arith, more)))
      ]
    ]
  ]

  -- A buffer is read as a register, without an exception and without a read past its end, exactly
  -- when it is shorter than four bytes, or the length in front plus four stays below 2^32, or
  -- that sum, unwrapped, is no more than the length of the buffer. The length in front is a
  -- 32-bit word.
  pub decode_iff : ((r : LwwRegister) × (decode bytes ≡ register r)) ↔ (
      (length bytes < 4)
      ⊎ ((4 + le_value (take 4 bytes) < 2 ^ 32) ⊎ (4 + le_value (take 4 bytes) ≤ length bytes)))
  decode_iff = (
    λ h. decode_returns h.0 h.1,
    λ h. elim h [ inl short ↦ (_, decode_short (inl short)) | inr more ↦ decode_read more ],
  )
