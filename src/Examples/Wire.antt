-- ===== src/Examples/Wire.antt =====
-- MID/j1939_frame.c, MID/j1939_encode_decode.c, MID/j1939_crc32.c: identifiers, payloads and
-- checksums at concrete inputs.
use teep_j1939_patent.Base.{
  ℕ, ◌/◌, ◌%◌, ◌^◌, ◌<◌, ◌≡◌, ◌≢◌, ◌↔◌, refl, arith, List, [], ◌∷◌, none, some, true,
}
use teep_j1939_patent.Frame.{FrameHeader, build_id, parse_id}
use teep_j1939_patent.Frame.RoundTrip.{parse_id-build_id}
use teep_j1939_patent.Codec.{
  Placement, pack_raw, unpack_raw, is_signal_scalar_in_buffer, absolute_start_bit,
}
use teep_j1939_patent.Codec.{
  extract_raw_value, extract_unaligned_bits, write_raw_value, write_unaligned_bits,
}
use teep_j1939_patent.Codec.Payload.{AllBytes}
use teep_j1939_patent.Codec.RoundTrip.{FieldFits, IsPacked, pack_raw-IsPacked, pack_raw-none_iff}
use teep_j1939_patent.Codec.Number.{le_number, unpack_raw-eq_le_number}
use teep_j1939_patent.Codec.Aligned.{extract_raw_value-slow}
use teep_j1939_patent.Codec.Aligned.Write.{write_raw_value-slow}
use teep_j1939_patent.Crc.{crc_final, crc_update, crc_init, crc_update_u8, crc_rounds, crc_round}
use teep_j1939_patent.Crc.Detect.{crc_detects_byte}

-- EEC1 at priority 3 from address 0: the identifier 0x0CF00400.
abbrev eec1 : FrameHeader
eec1 = record { pgn = 61444; priority = 3; source_address = 0; destination_address = 255 }

eec1_id : build_id eec1 ≡ 0x0cf00400
unfolding build_id
eec1_id = refl

parse_id-build_id_example : parse_id (build_id eec1) ≡ eec1
parse_id-build_id_example = parse_id-build_id eec1 (record {
  fits = ground arith;
  priority_fits = omega arith;
  pgn_fits = omega arith;
  ps_empty = λ h. omega arith;
  broadcast = λ h. refl;
})

abbrev payload : List ℕ
payload = 1 ∷ 2 ∷ 3 ∷ 4 ∷ []

payload_bytes : AllBytes payload
payload_bytes = (omega arith, (omega arith, (omega arith, (omega arith, tt))))

pack_raw-IsPacked_example :
    (out : List ℕ) × (pack_raw payload 4 5 12 2345 ≡ some out) × IsPacked payload 5 12 2345 out
pack_raw-IsPacked_example =
    pack_raw-IsPacked payload 5 12 2345 payload_bytes (omega arith) (omega arith)

pack_raw-none_iff_example : (pack_raw payload 4 30 3 1 ≡ none) ↔ ¬ (FieldFits 4 30 3 × (1 < 2 ^ 3))
pack_raw-none_iff_example = pack_raw-none_iff payload 4 30 3 1 (omega arith)

unpack_raw-eq_le_number_example :
    unpack_raw payload 4 8 16 ≡ some (le_number payload / 2 ^ 8 % 2 ^ 16)
unpack_raw-eq_le_number_example = unpack_raw-eq_le_number payload 8 16 payload_bytes (omega arith)

abbrev second_word : Placement
second_word = record { start_byte = 2; start_bit = 1; num_bits = 16 }

admitted : is_signal_scalar_in_buffer second_word 4 ≡ true
unfolding is_signal_scalar_in_buffer
admitted = refl

extract_raw_value-slow_example :
    extract_raw_value payload second_word
    ≡ extract_unaligned_bits payload (absolute_start_bit second_word) 16
extract_raw_value-slow_example = extract_raw_value-slow payload second_word payload_bytes admitted

write_raw_value-slow_example :
    write_raw_value payload second_word 770
    ≡ write_unaligned_bits payload (absolute_start_bit second_word) 16 770
write_raw_value-slow_example = write_raw_value-slow payload second_word 770 payload_bytes admitted

-- The check value of CRC-32/ISO-HDLC, of the text 123456789.
check_value :
    crc_final
      (crc_update crc_init (b'1' ∷ b'2' ∷ b'3' ∷ b'4' ∷ b'5' ∷ b'6' ∷ b'7' ∷ b'8' ∷ b'9' ∷ []))
    ≡ 0xcbf43926
unfolding crc_final crc_update crc_update_u8 crc_rounds crc_round
check_value = refl

crc_detects_byte_example :
    crc_final (crc_update crc_init (1 ∷ 2 ∷ 3 ∷ []))
    ≢ crc_final (crc_update crc_init (1 ∷ 7 ∷ 3 ∷ []))
crc_detects_byte_example =
    crc_detects_byte crc_init (1 ∷ []) (3 ∷ []) 2 7 (omega arith) (omega arith, tt)
      (omega arith, tt) (omega arith) (omega arith) (omega arith)
