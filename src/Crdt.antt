-- ===== src/Crdt.antt =====
-- The last-write-wins register: src/crdt.h. `CRDTValue` has this one implementation, so the cast
-- in `merge` succeeds.
pub mod Merge
pub mod Delivery
pub mod Codec
use zenith_db.Prelude.{
  ℕ, zero, suc, ◌+◌, ◌-◌, ◌%◌, ◌^◌, [], ◌++◌, Option, none, some, Bool, true, false, not,
  if◌then◌else◌, ltb, length, take, drop,
}
use zenith_db.Bytes.{Bytes, lt_bytes}
use zenith_db.Bytes.Words.{le_bytes, le_value}
use zenith_db.VectorClock
use zenith_db.VectorClock.{
  VectorClock, happens_before, concurrent, compare_clocks, serialize_clock, deserialize_clock,
}

pub record LwwRegister : Type 0 where
  pub value : Bytes
  pub clock : VectorClock

-- `LWWRegister::merge`: the receiver after the call.
unfoldable pub merge : LwwRegister → LwwRegister → LwwRegister
merge self other = elim (compare_clocks self.clock other.clock) [
  | happens_before ↦ record self { value = other.value; clock = other.clock }
  | concurrent ↦ record self {
    value = if lt_bytes self.value other.value then other.value else self.value;
    clock = VectorClock.merge self.clock other.clock;
  }
  | _ ↦ record self { clock = VectorClock.merge self.clock other.clock }
]

-- The clock's length in four bytes, the clock, and the value to the end.
unfoldable pub serialize : LwwRegister → Bytes
serialize r =
    let vc_bytes = serialize_clock r.clock in le_bytes 4 (length vc_bytes) ++ (vc_bytes ++ r.value)

-- What `deserialize` ends in: a register, the `std::length_error` of the constructor of the value,
-- or a read past the end of the buffer.
pub data Decoded : Type 0 where
  register : LwwRegister → Decoded
  length_error past_end : Decoded

-- Whether the loop of `VectorClock::deserialize`, over a view that claims `len` bytes, stays within
-- those that are there.
unfoldable pub entries_within : ℕ → ℕ → Bytes → Bool
entries_within zero len rest = true
entries_within (suc i) len rest =
    let nlen = le_value (take 4 rest) in
    let next = entries_within i (len - (nlen + 12)) (drop (nlen + 12) rest) in
    if ltb len 4
    then true
    else if ltb (length rest) 4
    then false
    else if ltb len (nlen + 12)
    then true
    else if ltb (length rest) (nlen + 12)
    then false
    else next

-- The same of the whole of `VectorClock::deserialize`.
unfoldable pub clock_within : ℕ → Bytes → Bool
unfolding entries_within
clock_within len rest =
    if ltb len 4
    then true
    else if ltb (length rest) 4
    then false
    else entries_within (le_value (take 4 rest)) (len - 4) (drop 4 rest)

-- The check adds up `4 + vc_len` in 32 bits. Where that wraps, the view may claim more bytes than
-- there are, and then the length of the value falls below 0 and wraps to one that no string has.
unfoldable pub decode : Bytes → Decoded
decode bytes =
    let vc_len = le_value (take 4 bytes) in
    let rest = drop 4 bytes in
    if ltb (length bytes) 4
    then register (record { value = bytes; clock = [] })
    else if ltb (length bytes) ((4 + vc_len) % 2 ^ 32)
    then register (record { value = bytes; clock = [] })
    else if not (clock_within vc_len rest)
    then past_end
    else if ltb (length bytes) (4 + vc_len)
    then length_error
    else register
        (record { value = drop vc_len rest; clock = deserialize_clock (take vc_len rest) })

-- The register that it returns; `none` if it throws or reads past the end.
abbrev pub returned : Decoded → Option LwwRegister
returned (register r) = some r
returned length_error = none
returned past_end = none

unfoldable pub deserialize : Bytes → Option LwwRegister
deserialize bytes = returned (decode bytes)
