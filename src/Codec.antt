-- ===== src/Codec.antt =====
-- MID/j1939_encode_decode.{h,c}: packing raw signal values into a payload and back, bit by bit
-- and by whole bytes. A payload is the list of its bytes.
pub mod Payload
pub mod Value
pub mod RoundTrip
pub mod Number
pub mod Aligned
use teep_j1939_patent.Base.{ℕ, zero, suc, ◌+◌, ◌-◌, ◌*◌, ◌/◌, ◌%◌, ◌^◌}
use teep_j1939_patent.Base.{
  Bool, true, false, not, ◌&&◌, ◌||◌, Option, none, some, List, get_or, set,
}
use teep_j1939_patent.Base.{length, replicate, ltb, leb, ◌==◌, ◌!=◌, if◌then◌else◌}
use teep_j1939_patent.Base.{u8, ◌<<<◌, ◌>>>◌, bit_and, bit_or, bit_test, bit_assign}

-- `J1939_Initialize_Payload`
unfoldable pub initialize_payload : List ℕ
initialize_payload = replicate 8 0xff

-- `prv_raw_field_fits`
unfoldable pub raw_field_fits : ℕ → ℕ → ℕ → Bool
raw_field_fits payload_len start_bit bit_length =
    let buffer_bits = payload_len * 8 in
    leb 1 bit_length
    && leb bit_length 32
    && ltb start_bit buffer_bits
    && leb bit_length (buffer_bits - start_bit)

-- One bit of a payload, at an absolute position.
abbrev pub payload_bit : List ℕ → ℕ → Bool
payload_bit payload pos = bit_test (get_or payload (pos / 8) 0) (pos % 8)

abbrev pub assign_payload_bit : List ℕ → ℕ → Bool → List ℕ
assign_payload_bit payload pos on =
    set payload (pos / 8) (bit_assign (get_or payload (pos / 8) 0) (pos % 8) on)

-- The loop `for (i = 0; i < bit_length; i++)` that writes a bit per round: `left` rounds from `i`.
unfoldable pub write_bits : (ℕ → Bool) → ℕ → ℕ → ℕ → List ℕ → List ℕ
write_bits bit start zero i payload = payload
write_bits bit start (suc left) i payload =
    write_bits bit start left (i + 1) (assign_payload_bit payload (start + i) (bit i))

-- `J1939_Pack_Raw`: the new payload, or `none` where the function returns false and writes nothing.
-- `payload_len` is how many of the payload's bytes belong to the message.
unfoldable pub pack_raw : List ℕ → ℕ → ℕ → ℕ → ℕ → Option (List ℕ)
unfolding raw_field_fits
pack_raw payload payload_len start_bit bit_length raw_value =
    if not (raw_field_fits payload_len start_bit bit_length)
    then none
    else if ltb bit_length 32 && (raw_value >>> bit_length != 0)
    then none
    else some (write_bits (λ i. bit_and (raw_value >>> i) 1 != 0) start_bit bit_length 0 payload)

-- `prv_extract_unaligned_bits`: the loop with its `result`.
unfoldable pub extract_bits : List ℕ → ℕ → ℕ → ℕ → ℕ → ℕ
extract_bits payload start zero i result = result
extract_bits payload start (suc left) i result =
    extract_bits payload start left (i + 1)
      (if payload_bit payload (start + i) then bit_or result (1 <<< i) else result)

unfoldable pub extract_unaligned_bits : List ℕ → ℕ → ℕ → ℕ
unfolding extract_bits
extract_unaligned_bits payload abs_start_bit num_bits =
    extract_bits payload abs_start_bit num_bits 0 0

-- `J1939_Unpack_Raw`
unfoldable pub unpack_raw : List ℕ → ℕ → ℕ → ℕ → Option ℕ
unfolding raw_field_fits
unpack_raw payload payload_len start_bit bit_length =
    if not (raw_field_fits payload_len start_bit bit_length)
    then none
    else some (extract_unaligned_bits payload start_bit bit_length)

-- The fields of `J1939_Signal_Definition_t` that place a signal in its payload; start_byte and
-- start_bit are 1-based.
pub record Placement : Type 0 where
  pub start_byte : ℕ
  pub start_bit : ℕ
  pub num_bits : ℕ

-- `J1939_Is_Signal_Scalar_In_Buffer`
unfoldable pub is_signal_scalar_in_buffer : Placement → ℕ → Bool
is_signal_scalar_in_buffer def payload_len =
    if (payload_len == 0)
      || ltb def.start_byte 1
      || ltb def.start_bit 1
      || ltb 8 def.start_bit
      || ltb def.num_bits 1
      || ltb 32 def.num_bits
    then false
    else let start = (def.start_byte - 1) * 8 + (def.start_bit - 1) in
      let buffer_bits = payload_len * 8 in
      ltb start buffer_bits && leb def.num_bits (buffer_bits - start)

-- `prv_get_absolute_start_bit`
abbrev pub absolute_start_bit : Placement → ℕ
absolute_start_bit def = (def.start_byte - 1) * 8 + (def.start_bit - 1)

-- The condition of both fast paths: a whole 8/16/24/32-bit field from bit 1 of a byte.
abbrev pub has_fast_path : Placement → Bool
has_fast_path def =
    (def.start_bit == 1)
    && ((def.num_bits == 8) || (def.num_bits == 16) || (def.num_bits == 24) || (def.num_bits == 32))

-- `prv_extract_aligned_bits`
unfoldable pub extract_aligned_bits : List ℕ → Placement → ℕ
extract_aligned_bits payload def =
    let byte_idx = def.start_byte - 1 in
    let num_bits = u8 def.num_bits in
    let b0 = get_or payload byte_idx 0 in
    let b1 = get_or payload (byte_idx + 1) 0 in
    let b2 = get_or payload (byte_idx + 2) 0 in
    let b3 = get_or payload (byte_idx + 3) 0 in
    if num_bits == 8
    then b0
    else if num_bits == 16
    then bit_or b0 (b1 <<< 8)
    else if num_bits == 24
    then bit_or (bit_or b0 (b1 <<< 8)) (b2 <<< 16)
    else if num_bits == 32
    then bit_or (bit_or (bit_or b0 (b1 <<< 8)) (b2 <<< 16)) (b3 <<< 24)
    else 0

-- `prv_extract_raw_value`
unfoldable pub extract_raw_value : List ℕ → Placement → ℕ
extract_raw_value payload def =
    if has_fast_path def
    then extract_aligned_bits payload def
    else extract_unaligned_bits payload (absolute_start_bit def) (u8 def.num_bits)

-- `prv_write_aligned_bits`
unfoldable pub write_aligned_bits : List ℕ → Placement → ℕ → List ℕ
write_aligned_bits payload def value =
    let byte_idx = def.start_byte - 1 in
    let num_bits = u8 def.num_bits in
    let one = set payload byte_idx (u8 (bit_and value 0xff)) in
    let two = set one (byte_idx + 1) (u8 (bit_and (value >>> 8) 0xff)) in
    let three = set two (byte_idx + 2) (u8 (bit_and (value >>> 16) 0xff)) in
    let four = set three (byte_idx + 3) (u8 (bit_and (value >>> 24) 0xff)) in
    if num_bits == 8
    then one
    else if num_bits == 16
    then two
    else if num_bits == 24
    then three
    else if num_bits == 32
    then four
    else payload

-- `prv_write_unaligned_bits`
unfoldable pub write_unaligned_bits : List ℕ → ℕ → ℕ → ℕ → List ℕ
write_unaligned_bits payload abs_start_bit num_bits value =
    write_bits (λ i. bit_and value (1 <<< i) != 0) abs_start_bit num_bits 0 payload

-- `prv_write_raw_value`
unfoldable pub write_raw_value : List ℕ → Placement → ℕ → List ℕ
write_raw_value payload def value =
    if has_fast_path def
    then write_aligned_bits payload def value
    else write_unaligned_bits payload (absolute_start_bit def) (u8 def.num_bits) value
