-- ===== src/Wire/Tests.antt =====
-- viewer/crates/btelem-wire: the theorems at small packets and schemas.
use btelem.Prelude.{ℕ, ◌≤◌, ◌≡◌, refl, List, [], ◌∷◌, codes, ok, arith, length, All}
use btelem.Wire.Utf8.{is_utf8, utf8_step, utf8_lead}
use btelem.Wire.Packet.{Packet, decode_packet}
use btelem.Wire.Packet.Layout.{packet_bytes, PacketFits, decode_packet-packet_bytes}
use btelem.Wire.Packet.Bounds.{InPayload, decode_packet-InPayload}
use btelem.Wire.Schema.{FieldType, FieldDef, Schema, decode}
use btelem.Wire.Schema.Layout.{schema_bytes, SchemaFits}
use btelem.Wire.Schema.RoundTrip.{decode-schema_bytes}

abbrev two_entries : Packet
two_entries = record {
  header = record { entry_count = 2; flags = 0; payload_size = 5; dropped = 7 };
  entries =
      record { id = 1; timestamp = 1000; payload = 10 ∷ 20 ∷ [] }
      ∷ record { id = 9; timestamp = 2000; payload = 1 ∷ 2 ∷ 3 ∷ [] }
      ∷ [];
}

two_entries-PacketFits : PacketFits two_entries
two_entries-PacketFits = record {
  count = refl;
  size = refl;
  entry_count = omega arith;
  flags = omega arith;
  payload_size = omega arith;
  dropped = omega arith;
  entries = (
    record { id = omega arith; timestamp = omega arith; payload = omega arith },
    (record { id = omega arith; timestamp = omega arith; payload = omega arith }, tt),
  );
}

decode_packet-packet_bytes_example : decode_packet (packet_bytes two_entries 99) ≡ ok two_entries
decode_packet-packet_bytes_example =
    decode_packet-packet_bytes two_entries 99 two_entries-PacketFits

decode_packet-InPayload_example :
    (53 ≤ length (packet_bytes two_entries 99))
    × (length two_entries.entries ≡ 2)
    × All (InPayload (packet_bytes two_entries 99) 48 5) two_entries.entries
decode_packet-InPayload_example =
    decode_packet-InPayload (packet_bytes two_entries 99) two_entries
      (decode_packet-packet_bytes two_entries 99 two_entries-PacketFits)

abbrev label_field : FieldDef
label_field = record {
  name = codes "label";
  offset = 1;
  size = 4;
  ty = FieldType.string;
  count = 1;
}

abbrev label_payload : List ℕ
label_payload = 9 ∷ 0x6f ∷ 0x6e ∷ 0 ∷ 0 ∷ 7 ∷ []

-- An entry with an enum and a bitfield.
abbrev motor : Schema
motor = record {
  entries =
      record {
        id = 3;
        payload_size = 3;
        name = codes "motor";
        description = codes "state";
        fields =
            record { name = codes "mode"; offset = 0; size = 1; ty = FieldType.enum; count = 1 }
            ∷ record {
              name = codes "flags";
              offset = 1;
              size = 2;
              ty = FieldType.bitfield;
              count = 1;
            }
            ∷ [];
      }
      ∷ [];
  enums = record { schema_id = 3; field_index = 0; labels = codes "off" ∷ codes "on" ∷ [] } ∷ [];
  bitfields =
      record {
        schema_id = 3;
        field_index = 1;
        bits = record { name = codes "hot"; start = 4; width = 2 } ∷ [];
      }
      ∷ [];
}

motor-SchemaFits : SchemaFits motor
unfolding is_utf8 utf8_step utf8_lead
motor-SchemaFits = record {
  entry_count = omega arith;
  enum_count = omega arith;
  bitfield_count = omega arith;
  entries = (
    record {
      id = omega arith;
      payload_size = omega arith;
      name = (omega arith, ground arith, refl);
      description = (omega arith, ground arith, refl);
      count = omega arith;
      fields = (
        record {
          name = (omega arith, ground arith, refl);
          offset = omega arith;
          size = omega arith;
        },
        (
          record {
            name = (omega arith, ground arith, refl);
            offset = omega arith;
            size = omega arith;
          },
          tt,
        ),
      );
    },
    tt,
  );
  enums = (
    record {
      schema_id = omega arith;
      field_index = omega arith;
      count = omega arith;
      labels = ((omega arith, ground arith, refl), ((omega arith, ground arith, refl), tt));
    },
    tt,
  );
  bitfields = (
    record {
      schema_id = omega arith;
      field_index = omega arith;
      count = omega arith;
      bits = ((omega arith, ground arith, refl), tt);
    },
    tt,
  );
}

decode-schema_bytes_example : decode (schema_bytes motor) ≡ ok motor
decode-schema_bytes_example = decode-schema_bytes motor motor-SchemaFits
