-- ===== src/Replay/Compare.antt =====
-- ComparePayloads of pkg/replay/diff.go.
use diverge.Base.{
  ℕ, suc, Bool, true, false, not, ◌&&◌, ◌||◌, ◌==◌, List, [], ◌∷◌, ◌++◌, Option, none, some, Text,
  codes, text_eq, is_empty, if◌then◌else◌, Result, ok, err, ◌>>=◌,
}
use diverge.Base.Decimal.{format_uint}
use diverge.Replay.Types.{
  Json, Items, null, array, nil, item, ContractDiff, DiffOptions, Std, Trailing, end_of_input,
  another_value, malformed,
}
use diverge.Replay.Media.{
  is_protobuf_content_type, is_json_content_type, is_framed_json_content_type,
  is_explicit_text_content_type,
}
use diverge.Replay.Frames.{
  has_valid_envelope_frame_sequence, unwrap_envelope_frames, unwrap_json_envelope_frames,
}
use diverge.Replay.Schema.{Descriptor, message_descriptor, other_descriptor, ProtoFiles}
use diverge.Replay.Reflect.{compare_dynamic_proto_messages}
use diverge.Replay.Json.{breaking_diff, truncate_sample, describe_json_type, diff_json_values}
use diverge.Replay.Wire.{WireFields, ProtoWire, parse_proto_wire_message, is_no_fields}
use diverge.Replay.WireDiff.{diff_proto_wire_messages}

-- The Protocol constants.
pub data Protocol : Type 0 where
  json_protocol protobuf_protocol protobuf_typed_protocol text_protocol empty_protocol : Protocol

-- `{` or `[`
unfoldable pub is_json_start : Text → Bool
is_json_start [] = false
is_json_start (c ∷ s) = c == b'{' || c == b'['

unfoldable pub trim_dot : Text → Text
trim_dot [] = []
trim_dot (c ∷ s) = if c == b'.' then s else c ∷ s

-- A side that failed to decode, and the word for the other side.
abbrev pub decode_error : Text → Text → Text → ContractDiff
decode_error path baseline preview = breaking_diff path (codes "decode_error") baseline preview

-- A status that only one side has.
unfoldable pub trailer_diff : Text → Text → Text → List ContractDiff
trailer_diff path base_trailer prev_trailer =
    if text_eq base_trailer prev_trailer
    then []
    else breaking_diff path (codes "status_mismatch") base_trailer prev_trailer ∷ []

module _ (std : Std) where
  open std use {trim_space, decode_json}

  unfoldable pub looks_like_json : Text → Bool
  unfolding is_json_start
  looks_like_json body = is_json_start (trim_space body)

  -- `err == nil && len(frames) > 0 && looksLikeJSON(frames[0])`
  unfoldable pub starts_with_json : Result Text (List Text × Text) → Bool
  unfolding looks_like_json
  starts_with_json (err e) = false
  starts_with_json (ok ([], status)) = false
  starts_with_json (ok (f ∷ fs, status)) = looks_like_json f

  unfoldable pub is_framed_connect_json_payload : Text → Text → Bool
  unfolding starts_with_json
  is_framed_connect_json_payload content_type raw =
      if is_empty raw
      then false
      else if is_framed_json_content_type std content_type && not (looks_like_json raw)
      then true
      else if not (has_valid_envelope_frame_sequence raw)
      then false
      else starts_with_json (unwrap_json_envelope_frames std raw)

  -- decodeSingleJSONValue: the value that the program returns, also beside an error.
  unfoldable pub check_trailing : Json × Trailing → Json × Result Text Json
  check_trailing (val, end_of_input) = (val, ok val)
  check_trailing (val, another_value) =
      (val, err (codes "unexpected trailing data after top-level JSON value"))
  check_trailing (val, malformed e) =
      (val, err (codes "invalid trailing data after top-level JSON value: " ++ e))

  unfoldable pub decode_single_json_value : Text → Json × Result Text Json
  unfolding check_trailing
  decode_single_json_value body = elim (decode_json body) [
    | err e ↦ (null, err e)
    | ok decoded ↦ check_trailing decoded
  ]

  -- The frames of a stream as JSON values, from frame `i`.
  unfoldable pub decode_frames : ℕ → List Text → Result Text Items
  unfolding decode_single_json_value
  decode_frames i [] = ok nil
  decode_frames i (f ∷ fs) = elim (decode_single_json_value f).1 [
    | err e ↦ err (codes "frame " ++ format_uint i ++ codes " invalid JSON: " ++ e)
    | ok v ↦ decode_frames (suc i) fs >>= (λ vs. ok (item v vs))
  ]

  -- The function extractFrames of compareFramedJSONPayloads.
  unfoldable pub extract_frames : Text → Text → Result Text (Items × Text)
  unfolding is_framed_connect_json_payload decode_frames
  extract_frames content_type body =
      let framed : Result Text (Items × Text) =
        unwrap_json_envelope_frames std body
        >>= (λ (frames, status). decode_frames 0 frames >>= (λ vals. ok (vals, status))) in
      let single : Result Text (Items × Text) =
        (decode_single_json_value body).1 >>= (λ v. ok (item v nil, codes "ok")) in
      if is_framed_connect_json_payload content_type body || has_valid_envelope_frame_sequence body
      then framed
      else if is_empty (trim_space body)
      then ok (nil, codes "ok")
      else single

  module _ (opts : DiffOptions) where
    -- The decoded messages: one on each side is compared as a value, more as arrays.
    unfoldable pub diff_messages_json : Items → Items → List ContractDiff
    unfolding diff_json_values
    diff_messages_json (item b nil) (item p nil) = diff_json_values std opts (codes "$") b p
    diff_messages_json nil nil = []
    diff_messages_json bs ps = diff_json_values std opts (codes "$") (array bs) (array ps)

    -- What compareFramedJSONPayloads reports on the two extracted streams.
    unfoldable pub diff_streams :
        Result Text (Items × Text) → Result Text (Items × Text) → List ContractDiff
    unfolding diff_messages_json trailer_diff
    diff_streams (ok (bs, base_trailer)) (ok (ps, prev_trailer)) =
        diff_messages_json bs ps ++ trailer_diff (codes "$.rpc_status") base_trailer prev_trailer
    diff_streams (err e) (ok p) =
        decode_error (codes "$") (codes "invalid Connect JSON envelope: " ++ e) (codes "valid") ∷ []
    diff_streams (ok b) (err e) =
        decode_error (codes "$") (codes "valid") (codes "invalid Connect JSON envelope: " ++ e) ∷ []
    diff_streams (err e) (err e') =
        decode_error (codes "$") (codes "invalid Connect JSON envelope: " ++ e) (codes "valid")
        ∷ decode_error (codes "$") (codes "valid") (codes "invalid Connect JSON envelope: " ++ e')
        ∷ []

    -- What compareJSONPayloads reports on two decoded bodies.
    unfoldable pub diff_decoded :
        Json × Result Text Json → Json × Result Text Json → List ContractDiff
    unfolding diff_json_values describe_json_type
    diff_decoded (b, ok b') (p, ok p') = diff_json_values std opts (codes "$") b' p'
    diff_decoded (b, err e) (p, ok p') =
        decode_error (codes "$") (codes "invalid JSON: " ++ e) (describe_json_type p) ∷ []
    diff_decoded (b, ok b') (p, err e) =
        decode_error (codes "$") (describe_json_type b) (codes "invalid JSON: " ++ e) ∷ []
    diff_decoded (b, err e) (p, err e') =
        decode_error (codes "$") (codes "invalid JSON: " ++ e) (describe_json_type p)
        ∷ decode_error (codes "$") (describe_json_type b) (codes "invalid JSON: " ++ e')
        ∷ []

    unfoldable pub compare_json_payloads : Text → Text → Text → Text → List ContractDiff
    unfolding extract_frames diff_streams diff_decoded
    compare_json_payloads base_content_type prev_content_type base_body prev_body =
        if is_framed_connect_json_payload base_content_type base_body
          || is_framed_connect_json_payload prev_content_type prev_body
        then diff_streams (extract_frames base_content_type base_body)
            (extract_frames prev_content_type prev_body)
        else diff_decoded (decode_single_json_value base_body) (decode_single_json_value prev_body)

    module _ (wire : ProtoWire) where
      -- What FindDescriptorByName returns for a configured message name.
      unfoldable pub diff_described :
          Text → Result Text Descriptor → Text → Text → Text → Text → List ContractDiff
      unfolding compare_dynamic_proto_messages trailer_diff
      diff_described msg_name (ok (message_descriptor unmarshal)) b p base_trailer prev_trailer =
          compare_dynamic_proto_messages std opts wire unmarshal b p
          ++ trailer_diff (codes "proto.rpc_status") base_trailer prev_trailer
      diff_described msg_name (ok other_descriptor) b p base_trailer prev_trailer =
          decode_error (codes "proto")
            (std.quote msg_name ++ codes " is not a protobuf message descriptor") (codes "invalid")
          ∷ []
      diff_described msg_name (err e) b p base_trailer prev_trailer =
          decode_error (codes "proto")
            (codes "descriptor " ++ std.quote msg_name ++ codes " not found: " ++ e)
            (codes "unresolved")
          ∷ []

      -- The two parsed messages.
      unfoldable pub diff_parsed :
          Result Text WireFields → Result Text WireFields → Text → Text → List ContractDiff
      unfolding diff_proto_wire_messages trailer_diff
      diff_parsed (ok b) (ok p) base_trailer prev_trailer =
          diff_proto_wire_messages std opts (codes "proto") b p
          ++ trailer_diff (codes "proto.rpc_status") base_trailer prev_trailer
      diff_parsed (err e) (ok p) base_trailer prev_trailer =
          decode_error (codes "proto") (codes "invalid protobuf wire payload: " ++ e)
            (codes "valid")
          ∷ []
      diff_parsed (ok b) (err e) base_trailer prev_trailer =
          decode_error (codes "proto") (codes "valid")
            (codes "invalid protobuf wire payload: " ++ e)
          ∷ []
      diff_parsed (err e) (err e') base_trailer prev_trailer =
          decode_error (codes "proto") (codes "invalid protobuf wire payload: " ++ e)
            (codes "valid")
          ∷ decode_error (codes "proto") (codes "valid")
              (codes "invalid protobuf wire payload: " ++ e')
          ∷ []

      -- By the schema, where there is one and a message name, or else by the wire.
      unfoldable pub diff_raw :
          Option ProtoFiles → Text → Text → Text → Text → Text → Protocol × List ContractDiff
      unfolding diff_parsed diff_described
      diff_raw none msg_name base_raw prev_raw base_trailer prev_trailer = (
        protobuf_protocol,
        diff_parsed (parse_proto_wire_message std wire base_raw)
            (parse_proto_wire_message std wire prev_raw) base_trailer prev_trailer,
      )
      diff_raw (some files) [] base_raw prev_raw base_trailer prev_trailer = (
        protobuf_protocol,
        diff_parsed (parse_proto_wire_message std wire base_raw)
            (parse_proto_wire_message std wire prev_raw) base_trailer prev_trailer,
      )
      diff_raw (some files) (c ∷ s) base_raw prev_raw base_trailer prev_trailer = (
        protobuf_typed_protocol,
        diff_described (c ∷ s) (files.find_descriptor_by_name (c ∷ s)) base_raw prev_raw
            base_trailer prev_trailer,
      )

      -- `strings.TrimPrefix(strings.TrimSpace(opts.ProtoMessage), ".")`
      unfoldable pub message_name : Text
      unfolding trim_dot
      message_name = trim_dot (trim_space opts.proto_message)

      -- The two unwrapped bodies.
      unfoldable pub diff_unwrapped :
          Result Text (Text × Text) → Result Text (Text × Text) → Protocol × List ContractDiff
      unfolding diff_raw message_name
      diff_unwrapped (ok (base_raw, base_trailer)) (ok (prev_raw, prev_trailer)) =
          diff_raw opts.proto_files message_name base_raw prev_raw base_trailer prev_trailer
      diff_unwrapped (err e) (ok p) =
          (protobuf_protocol, decode_error (codes "proto") e (codes "ok") ∷ [])
      diff_unwrapped (ok b) (err e) =
          (protobuf_protocol, decode_error (codes "proto") (codes "ok") e ∷ [])
      diff_unwrapped (err e) (err e') = (
        protobuf_protocol,
        decode_error (codes "proto") e (codes "ok")
            ∷ decode_error (codes "proto") (codes "ok") e'
            ∷ [],
      )

      -- compareProtobufPayloads
      unfoldable pub compare_protobuf_payloads :
          Text → Text → Text → Text → Protocol × List ContractDiff
      unfolding diff_unwrapped
      compare_protobuf_payloads base_content_type prev_content_type base_body prev_body =
          diff_unwrapped (unwrap_envelope_frames std base_content_type base_body)
            (unwrap_envelope_frames std prev_content_type prev_body)

      -- `err == nil && len(fields) > 0`
      unfoldable pub is_wire_message : Text → Bool
      unfolding is_no_fields
      is_wire_message body = elim (parse_proto_wire_message std wire body) [
        | err e ↦ false
        | ok fields ↦ not (is_no_fields fields)
      ]

      -- The fallback: bodies without a type that parse as Protobuf messages.
      unfoldable pub falls_back_to_protobuf : Text → Text → Bool
      unfolding is_wire_message
      falls_back_to_protobuf base_body prev_body =
          if not (is_empty base_body)
          then is_wire_message base_body && (is_empty prev_body || is_wire_message prev_body)
          else not (is_empty prev_body) && is_wire_message prev_body

      unfoldable pub compare_text : Text → Text → List ContractDiff
      unfolding truncate_sample
      compare_text base_body prev_body =
          let b = trim_space base_body in
          let p = trim_space prev_body in
          if opts.compare_values && not (text_eq b p)
          then breaking_diff (codes "$") (codes "value_mismatch") (truncate_sample b 80)
              (truncate_sample p 80)
            ∷ []
          else []

      -- The tests of ComparePayloads, in their order.
      unfoldable pub choose_protocol : Text → Text → Text → Text → Protocol
      unfolding looks_like_json is_framed_connect_json_payload falls_back_to_protobuf
      choose_protocol base_content_type prev_content_type base_body prev_body =
          let is_proto =
            is_protobuf_content_type std base_content_type
            || is_protobuf_content_type std prev_content_type in
          let framed_json =
            is_framed_connect_json_payload base_content_type base_body
            || is_framed_connect_json_payload prev_content_type prev_body in
          if is_empty (trim_space base_body) && is_empty (trim_space prev_body) && not is_proto
          then empty_protocol
          else if is_proto
              || not (is_empty opts.proto_message)
                && not (looks_like_json base_body)
                && not (looks_like_json prev_body)
                && not framed_json
          then protobuf_protocol
          else if is_json_content_type std base_content_type
              || is_json_content_type std prev_content_type
              || framed_json
              || looks_like_json base_body && looks_like_json prev_body
          then json_protocol
          else if not (is_explicit_text_content_type std base_content_type)
              && not (is_explicit_text_content_type std prev_content_type)
              && falls_back_to_protobuf base_body prev_body
          then protobuf_protocol
          else text_protocol

      unfoldable pub compare_as :
          Protocol → Text → Text → Text → Text → Protocol × List ContractDiff
      unfolding compare_json_payloads compare_protobuf_payloads compare_text
      compare_as empty_protocol base_content_type prev_content_type base_body prev_body =
          (empty_protocol, [])
      compare_as json_protocol base_content_type prev_content_type base_body prev_body = (
        json_protocol,
        compare_json_payloads base_content_type prev_content_type base_body prev_body,
      )
      compare_as protobuf_typed_protocol base_content_type prev_content_type base_body prev_body =
          compare_protobuf_payloads base_content_type prev_content_type base_body prev_body
      compare_as protobuf_protocol base_content_type prev_content_type base_body prev_body =
          compare_protobuf_payloads base_content_type prev_content_type base_body prev_body
      compare_as text_protocol base_content_type prev_content_type base_body prev_body =
          (text_protocol, compare_text base_body prev_body)

      unfoldable pub compare_payloads : Text → Text → Text → Text → Protocol × List ContractDiff
      unfolding choose_protocol compare_as
      compare_payloads base_content_type prev_content_type base_body prev_body =
          let protocol = choose_protocol base_content_type prev_content_type base_body prev_body in
          compare_as protocol base_content_type prev_content_type base_body prev_body
