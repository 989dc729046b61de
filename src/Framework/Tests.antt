-- ===== src/Framework/Tests.antt =====
-- The engine and its wire formats at concrete inputs.
use radio_cat_rs.Base.{ℕ, ◌%◌, ◌^◌, true, false, ◌≡◌, refl, some, [], ◌∷◌, ok, arith}
use radio_cat_rs.Base.Bytes.{Bytes}
use radio_cat_rs.Framework.Command.{CommandDefinition, query, set, fixed, supports}
use radio_cat_rs.Framework.Process.{CommandRequest, classify, parse}
use radio_cat_rs.Framework.Ascii
use radio_cat_rs.Framework.Ascii.{ascii_line_format}
use radio_cat_rs.Framework.Civ
use radio_cat_rs.Framework.Civ.{CivCode, CivFormat, for_radio}
use radio_cat_rs.Framework.Bcd.{encode_bcd, decode_bcd, encode_bcd_be, decode_bcd_be}
use radio_cat_rs.Framework.Bcd.RoundTrip.{decode-encode_bcd}

-- `FA`: read with no parameter, set with three digits.
abbrev vfo_a : CommandDefinition ℕ Bytes
vfo_a = record {
  id = 7;
  code = b'F' ∷ b'A' ∷ [];
  name = "FA";
  description = "VFO A";
  query_forms = fixed query 0 ∷ [];
  set_forms = fixed set 3 ∷ [];
  action_forms = [];
  response_forms = [];
  readable = true;
  writable = true;
}

abbrev set_frame : Bytes
set_frame = b'F' ∷ b'A' ∷ b'0' ∷ b'1' ∷ b'4' ∷ b';' ∷ []

abbrev set_request : CommandRequest ℕ Bytes
set_request = record {
  id = 7;
  code = b'F' ∷ b'A' ∷ [];
  operation = set;
  parameters = b'0' ∷ b'1' ∷ b'4' ∷ [];
}

set_frame_parses : parse ascii_line_format (vfo_a ∷ []) set_frame ≡ ok set_request
unfolding parse Ascii.find_command classify supports
set_frame_parses = refl

-- IC-705's address and the read of an S-meter, `15 02`.
abbrev icom : CivFormat
icom = for_radio 0xA4

abbrev meter : CommandDefinition ℕ CivCode
meter = record {
  id = 3;
  code = (0x15, some 2);
  name = "SM";
  description = "S-meter";
  query_forms = fixed query 0 ∷ [];
  set_forms = [];
  action_forms = [];
  response_forms = [];
  readable = true;
  writable = false;
}

decode-encode_bcd_example :
    (decode_bcd (encode_bcd 14250000 5) ≡ some (14250000 % 100 ^ 5))
    × (decode_bcd_be (encode_bcd_be 14250000 5) ≡ some (14250000 % 100 ^ 5))
decode-encode_bcd_example = decode-encode_bcd 14250000 5 (omega arith)
