-- ===== src/Replay/Tests.antt =====
-- A small library for pkg/replay/diff.go, and the theorems on small answers.
use diverge.Base.{
  true, false, List, [], ◌∷◌, ◌++◌, none, some, drop, Text, codes, text_eq, is_empty, any, ok, err,
  ◌≡◌, ◌↔◌, refl, arith, All,
}
use diverge.Base.Hex.{IsBytes}
use diverge.Topology.Sets.{has}
use diverge.Replay.Types.{
  Json, null, number, string, array, object, nil, item, empty, field, DiffOptions, Std,
  end_of_input,
}
use diverge.Replay.Media.{normalize_media_type, before, holds_byte, is_framed_proto_content_type}
use diverge.Replay.Frames.{
  parse_trailer_frame_status, has_valid_envelope_frame_sequence, unwrap_envelope_frames,
  unwrap_json_envelope_frames,
}
use diverge.Replay.Framing.{Frame, encode_frames, IsFrame, process}
use diverge.Replay.Unwrap.{
  concat, stream, unwrap_json_envelope_frames_iff, unwrap_json-stream, unwrap_envelope-stream,
}
use diverge.Replay.Sequence.{IsSequence, has_valid_envelope_frame_sequence_iff}
use diverge.Replay.Json.{diff_json_values, should_ignore_field, breaking_diff, truncate_sample}
use diverge.Base.Int.{pos}
use diverge.Replay.Same.{Same}
use diverge.Replay.Equal.{diff_json_values-Same_iff}
use diverge.Replay.Wire.{ProtoWire, no_fields, parse_fields, parse_proto_wire_message, is_no_fields}
use diverge.Replay.Schema.{
  ElementDescriptor, FieldDescriptor, ProtoFiles, ProtoMessage, message, no_slots, slot, one,
  scalar, string_kind, message_descriptor,
}
use diverge.Replay.Describe.{each_field, find_content, populated}
use diverge.Replay.Reflect.{
  diff_reflected, visit_proto_field, diff_unknown, diff_presence, diff_slot, diff_content,
  diff_value, diff_proto_scalars, format_proto_scalar,
}
use diverge.Replay.Compare.{compare_payloads}
use diverge.Replay.Unchanged.{IsQuiet, compare_payloads_self}
use diverge.Replay.Parse.{Consumes, parse_fields_enough}

abbrev small_std : Std
small_std = record {
  trim_space = λ s. s;
  to_lower = λ s. s;
  equal_fold = text_eq;
  quote = λ s. b'"' ∷ s;
  utf8_valid = λ s. true;
  runes = λ s. s;
  decode_json = λ s. ok (string s, end_of_input);
  decode_end_stream = λ s. ok none;
}

abbrev strict : DiffOptions
strict = record {
  compare_values = true;
  fail_on_extra_fields = true;
  ignore_fields = [];
  proto_files = none;
  proto_message = [];
}

abbrev answers : List Text
answers = codes "{}" ∷ codes "[1]" ∷ []

status_ok : parse_trailer_frame_status small_std 2 (codes "{}") ≡ ok (codes "ok")
unfolding parse_trailer_frame_status is_empty
status_ok = refl

unwrap_json-stream_example :
    unwrap_json_envelope_frames small_std (encode_frames (stream answers (codes "{}")))
    ≡ ok (answers, codes "ok")
unwrap_json-stream_example =
    unwrap_json-stream small_std answers (codes "{}") (codes "ok") (ground arith) (ground arith)
      status_ok

grpc : is_framed_proto_content_type small_std (codes "application/grpc") ≡ true
unfolding is_framed_proto_content_type normalize_media_type before holds_byte has any text_eq
grpc = refl

unwrap_envelope-stream_example :
    unwrap_envelope_frames small_std
      (codes "application/grpc")
      (encode_frames (stream answers (codes "{}")))
    ≡ ok (concat answers, codes "ok")
unwrap_envelope-stream_example =
    unwrap_envelope-stream small_std (codes "application/grpc") answers (codes "{}") (codes "ok")
      grpc (ground arith) (ground arith) status_ok

abbrev body : Text
body = encode_frames (stream answers (codes "{}"))

body-IsBytes : IsBytes body
body-IsBytes = ground arith

unwrap_json_envelope_frames_iff_example :
    (unwrap_json_envelope_frames small_std body ≡ ok (answers, codes "ok")) ↔ (
      (fs : List Frame) × All IsFrame fs
      × (body ≡ encode_frames fs)
      × (process small_std
            (λ frames payload. frames ++ payload ∷ [])
            (codes "Connect JSON")
            fs
            ([], codes "ok")
          ≡ ok (answers, codes "ok")))
unwrap_json_envelope_frames_iff_example =
    unwrap_json_envelope_frames_iff small_std body (answers, codes "ok") body-IsBytes

has_valid_envelope_frame_sequence_iff_example :
    (has_valid_envelope_frame_sequence body ≡ true) ↔ IsSequence body
has_valid_envelope_frame_sequence_iff_example =
    has_valid_envelope_frame_sequence_iff body body-IsBytes

abbrev order_one : Json
order_one =
    object
      (field (codes "id") (number (codes "1")) (field (codes "tags") (array (item null nil)) empty))

abbrev order_two : Json
order_two =
    object
      (field (codes "tags") (array (item null nil)) (field (codes "id") (number (codes "1")) empty))

diff_json_values-Same_iff_example :
    (diff_json_values small_std strict (codes "$") order_one order_two ≡ [])
    ↔ Same order_one order_two
diff_json_values-Same_iff_example =
    diff_json_values-Same_iff small_std strict refl refl (λ s t e. cc e) order_one order_two

abbrev small_wire : ProtoWire
small_wire = record {
  consume_tag = λ b. ok (1, 0, 1);
  consume_varint = λ b. ok (7, 1);
  consume_fixed32 = λ b. err (codes "fixed32");
  consume_fixed64 = λ b. err (codes "fixed64");
  consume_bytes = λ b. err (codes "bytes");
  consume_group = λ n b. err (codes "group");
  consume_field = λ b. ok (1, 0, 2);
  hex32 = λ n. [];
  hex64 = λ n. [];
}

small_wire-Consumes : Consumes small_wire
small_wire-Consumes = record {
  tag = λ b num wtype n e. let q : 1 ≡ n = cc e in omega (arith, q);
  bytes = λ b v n e. absurd (cc e);
}

parse_fields_enough_example :
    parse_fields small_std small_wire 9 0 (8 ∷ 7 ∷ []) no_fields
    ≡ parse_fields small_std small_wire 2 0 (8 ∷ 7 ∷ []) no_fields
parse_fields_enough_example =
    parse_fields_enough small_std small_wire small_wire-Consumes 9 0 (8 ∷ 7 ∷ []) no_fields
      (omega arith)

abbrev string_element : ElementDescriptor
string_element = record { kind = string_kind; number = 1; full_name = []; enum_name = λ n. none }

abbrev name_field : FieldDescriptor
name_field = record {
  name = codes "name";
  element = string_element;
  is_list = false;
  is_map = false;
  map_key = string_element;
  map_value = string_element;
}

abbrev hello : Text → ProtoMessage
hello name =
    message (name_field ∷ [])
      (slot 1 (one (scalar (record { string = name; bytes = []; enum = pos 0 }))) no_slots) []

-- One message type, whose only field is the text after the tag and the length.
abbrev schema : ProtoFiles
schema = record {
  find_descriptor_by_name = λ name. ok (message_descriptor (λ raw. ok (hello (drop 2 raw))));
}

abbrev by_schema : DiffOptions
by_schema = record strict { proto_files = some schema; proto_message = codes ".greet.Hello" }

-- The same name is no difference, and another one is reported under the name of the field.
hello_compared :
    (diff_reflected small_std by_schema small_wire
        (codes "$")
        (hello (codes "a"))
        (hello (codes "a"))
      ≡ [])
    × (diff_reflected small_std by_schema small_wire
          (codes "$")
          (hello (codes "a"))
          (hello (codes "b"))
        ≡ breaking_diff (codes "$.name") (codes "value_mismatch") (codes "\"a") (codes "\"b") ∷ [])
unfolding diff_reflected should_ignore_field each_field visit_proto_field diff_unknown find_content
    populated diff_presence diff_slot diff_content diff_value diff_proto_scalars format_proto_scalar
    truncate_sample text_eq any parse_proto_wire_message parse_fields is_no_fields
hello_compared = (refl, refl)

compare_payloads-self_example :
    IsQuiet
      (compare_payloads small_std by_schema small_wire
        (codes "application/proto")
        (codes "application/proto")
        (codes "name")
        (codes "name")).1
compare_payloads-self_example =
    compare_payloads_self small_std by_schema small_wire (codes "application/proto") (codes "name")
