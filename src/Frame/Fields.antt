-- ===== src/Frame/Fields.antt =====
-- MID/j1939_frame.c: both functions of the identifier as sums of fields.
use teep_j1939_patent.Base.{ℕ, ◌+◌, ◌*◌, ◌/◌, ◌%◌, ◌<◌, ◌≡◌, arith, ltb, if◌then◌else◌}
use teep_j1939_patent.Base.{bit_and, bit_or, bit_or-add, bit_and_mask}
use teep_j1939_patent.Frame.{FrameHeader, build_id, parse_id, pf_pdu2_min, addr_global}

-- The field that goes into bits 15..8: the destination of a PDU1 PGN, the group extension of a
-- PDU2 one.
abbrev pub ps_field : FrameHeader → ℕ
ps_field hdr =
    if ltb (hdr.pgn / 256 % 256) pf_pdu2_min then hdr.destination_address else hdr.pgn % 256

mask1 : (x : ℕ) → bit_and x 0x01 ≡ x % 2
mask1 x = bit_and_mask 1 x

mask3 : (x : ℕ) → bit_and x 0x07 ≡ x % 8
mask3 x = bit_and_mask 3 x

mask8 : (x : ℕ) → bit_and x 0xff ≡ x % 256
mask8 x = bit_and_mask 8 x

or_five :
    (p d f s a : ℕ)
    → d < 2
    → f < 256
    → s < 256
    → a < 256
    → bit_or (bit_or (bit_or (bit_or (p * 67108864) (d * 16777216)) (f * 65536)) (s * 256)) a
      ≡ p * 67108864 + d * 16777216 + f * 65536 + s * 256 + a
or_five p d f s a hd hf hs ha = rw (
  bit_or-add 26 (p * 67108864) (d * 16777216) (omega arith) (omega arith),
  bit_or-add 24 (p * 67108864 + d * 16777216) (f * 65536) (omega arith) (omega arith),
  bit_or-add 16 (p * 67108864 + d * 16777216 + f * 65536) (s * 256) (omega arith) (omega arith),
  bit_or-add 8 (p * 67108864 + d * 16777216 + f * 65536 + s * 256) a (omega arith) (omega arith),
)

-- A header whose fields fit their C types.
abbrev pub InRange : FrameHeader → Type 0
InRange hdr = (hdr.source_address < 256) × (hdr.destination_address < 256)

pub build_id_fields :
    (hdr : FrameHeader)
    → InRange hdr
    → build_id hdr
      ≡ hdr.priority % 8 * 67108864
        + hdr.pgn / 65536 % 2 * 16777216
        + hdr.pgn / 256 % 256 * 65536
        + ps_field hdr * 256
        + hdr.source_address
unfolding build_id
build_id_fields hdr h = ground (
  arith,
  mask3 hdr.priority,
  mask1 (hdr.pgn / 65536),
  mask8 (hdr.pgn / 256),
  mask8 hdr.pgn,
  or_five (hdr.priority % 8) (hdr.pgn / 65536 % 2) (hdr.pgn / 256 % 256) hdr.destination_address
      hdr.source_address,
  or_five (hdr.priority % 8) (hdr.pgn / 65536 % 2) (hdr.pgn / 256 % 256) (hdr.pgn % 256)
      hdr.source_address,
)

-- The header that an identifier carries, as arithmetic.
abbrev pub fields_of : ℕ → FrameHeader
fields_of id =
    if ltb (id / 65536 % 256) pf_pdu2_min
    then record {
      pgn = id / 16777216 % 2 * 65536 + id / 65536 % 256 * 256;
      priority = id / 67108864 % 8;
      source_address = id % 256;
      destination_address = id / 256 % 256;
    }
    else record {
      pgn = id / 16777216 % 2 * 65536 + id / 65536 % 256 * 256 + id / 256 % 256;
      priority = id / 67108864 % 8;
      source_address = id % 256;
      destination_address = addr_global;
    }

pub parse_id_fields : (id : ℕ) → parse_id id ≡ fields_of id
unfolding parse_id
parse_id_fields id = ground (
  arith,
  mask3 (id / 67108864),
  mask1 (id / 16777216),
  mask8 (id / 65536),
  mask8 (id / 256),
  mask8 id,
  bit_or-add 16 (id / 16777216 % 2 * 65536) (id / 65536 % 256 * 256),
  bit_or-add 8 (id / 16777216 % 2 * 65536 + id / 65536 % 256 * 256) (id / 256 % 256),
)
