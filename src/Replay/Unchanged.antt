-- ===== src/Replay/Unchanged.antt =====
-- What ComparePayloads of pkg/replay/diff.go reports on an answer that did not change.
use diverge.Base.{
  Bool, true, false, List, [], ◌∷◌, Option, none, some, Text, codes, text_eq_refl, ◌≡◌, refl, inl,
  inr, if◌then◌else◌, Result, ok, err, All, All-append, Bool-cases,
}
use diverge.Replay.Schema.{
  ProtoMessage, Descriptor, message_descriptor, other_descriptor, ProtoFiles,
}
use diverge.Replay.Types.{Json, Items, array, nil, item, ContractDiff, DiffOptions, Std}
use diverge.Replay.Media.{}
use diverge.Replay.Frames.{unwrap_envelope_frames}
use diverge.Replay.Wire.{WireFields, ProtoWire, parse_proto_wire_message}
use diverge.Replay.Compare.{
  Protocol, trailer_diff, decode_single_json_value, extract_frames, diff_messages_json,
  diff_streams, diff_decoded, compare_json_payloads, diff_parsed, diff_unwrapped,
  compare_protobuf_payloads, compare_text, compare_as, choose_protocol, compare_payloads,
  empty_protocol, json_protocol, protobuf_protocol, protobuf_typed_protocol, text_protocol,
  diff_described, diff_raw, message_name,
}
use diverge.Replay.Reflexive.{diff_json_values_self}
use diverge.Replay.Reflect.{compare_unmarshaled, compare_dynamic_proto_messages}
use diverge.Replay.ReflectSelf.{diff_reflected_self}
use diverge.Replay.WireSelf.{diff_proto_wire_messages_self}

-- Nothing is reported but that a side does not decode.
abbrev pub IsQuiet : List ContractDiff → Type 0
IsQuiet = All (λ d. d.kind ≡ codes "decode_error")

silent_nil : (ds : List ContractDiff) → ds ≡ [] → IsQuiet ds
silent_nil ds e = rw e tt

silent_if :
    (c : Bool) (ds es : List ContractDiff)
    → IsQuiet ds
    → IsQuiet es
    → IsQuiet (if c then ds else es)
silent_if true ds es hd he = hd
silent_if false ds es hd he = he

trailer_diff_self : (path status : Text) → trailer_diff path status status ≡ []
unfolding trailer_diff
trailer_diff_self path status = rw (text_eq_refl status) refl

module _ (std : Std) (opts : DiffOptions) where
  diff_messages_self : (vs : Items) → diff_messages_json std opts vs vs ≡ []
  unfolding diff_messages_json
  diff_messages_self nil = refl
  diff_messages_self (item v nil) = diff_json_values_self std opts (codes "$") v
  diff_messages_self (item v (item w ws)) =
      diff_json_values_self std opts (codes "$") (array (item v (item w ws)))

  diff_streams_self : (r : Result Text (Items × Text)) → IsQuiet (diff_streams std opts r r)
  unfolding diff_streams
  diff_streams_self (err e) = (refl, (refl, tt))
  diff_streams_self (ok (vs, status)) =
      All-append _ (diff_messages_json std opts vs vs) _ (silent_nil _ (diff_messages_self vs))
        (silent_nil _ (trailer_diff_self (codes "$.rpc_status") status))

  diff_decoded_self :
      (v : Json) (r : Result Text Json) → IsQuiet (diff_decoded std opts (v, r) (v, r))
  unfolding diff_decoded
  diff_decoded_self v (err e) = (refl, (refl, tt))
  diff_decoded_self v (ok w) = silent_nil _ (diff_json_values_self std opts (codes "$") w)

  compare_json_payloads_self :
      (content_type body : Text)
      → IsQuiet (compare_json_payloads std opts content_type content_type body body)
  unfolding compare_json_payloads
  compare_json_payloads_self content_type body =
      let d = decode_single_json_value std body in
      silent_if _ _ _ (diff_streams_self (extract_frames std content_type body))
        (diff_decoded_self d.0 d.1)

  module _ (wire : ProtoWire) where
    diff_parsed_self :
        (r : Result Text WireFields) (status : Text)
        → IsQuiet (diff_parsed std opts wire r r status status)
    unfolding diff_parsed
    diff_parsed_self (err e) status = (refl, (refl, tt))
    diff_parsed_self (ok m) status =
        All-append _ _ _ (silent_nil _ (diff_proto_wire_messages_self std opts (codes "proto") m))
          (silent_nil _ (trailer_diff_self (codes "proto.rpc_status") status))

    compare_unmarshaled_self :
        (r : Result Text ProtoMessage) → IsQuiet (compare_unmarshaled std opts wire r r)
    unfolding compare_unmarshaled
    compare_unmarshaled_self (err e) = (refl, (refl, tt))
    compare_unmarshaled_self (ok m) = silent_nil _ (diff_reflected_self std opts wire (codes "$") m)

    diff_described_self :
        (msg_name : Text) (found : Result Text Descriptor) (raw status : Text)
        → IsQuiet (diff_described std opts wire msg_name found raw raw status status)
    unfolding diff_described compare_dynamic_proto_messages
    diff_described_self msg_name (err e) raw status = (refl, tt)
    diff_described_self msg_name (ok other_descriptor) raw status = (refl, tt)
    diff_described_self msg_name (ok (message_descriptor unmarshal)) raw status =
        All-append _ _ _ (compare_unmarshaled_self (unmarshal raw))
          (silent_nil _ (trailer_diff_self (codes "proto.rpc_status") status))

    diff_raw_self :
        (files : Option ProtoFiles) (msg_name raw status : Text)
        → IsQuiet (diff_raw std opts wire files msg_name raw raw status status).1
    unfolding diff_raw
    diff_raw_self none msg_name raw status =
        diff_parsed_self (parse_proto_wire_message std wire raw) status
    diff_raw_self (some files) [] raw status =
        diff_parsed_self (parse_proto_wire_message std wire raw) status
    diff_raw_self (some files) (c ∷ s) raw status =
        diff_described_self (c ∷ s) (files.find_descriptor_by_name (c ∷ s)) raw status

    diff_unwrapped_self :
        (r : Result Text (Text × Text)) → IsQuiet (diff_unwrapped std opts wire r r).1
    unfolding diff_unwrapped
    diff_unwrapped_self (err e) = (refl, (refl, tt))
    diff_unwrapped_self (ok (raw, status)) =
        diff_raw_self opts.proto_files (message_name std opts wire) raw status

    compare_protobuf_payloads_self :
        (content_type body : Text)
        → IsQuiet (compare_protobuf_payloads std opts wire content_type content_type body body).1
    unfolding compare_protobuf_payloads
    compare_protobuf_payloads_self content_type body =
        diff_unwrapped_self (unwrap_envelope_frames std content_type body)

    compare_text_self : (body : Text) → compare_text std opts wire body body ≡ []
    unfolding compare_text
    compare_text_self body = elim (Bool-cases opts.compare_values) [
      | inl v ↦ rw (text_eq_refl (std.trim_space body), v) refl
      | inr v ↦ rw v refl
    ]

    compare_as_self :
        (protocol : Protocol) (content_type body : Text)
        → IsQuiet (compare_as std opts wire protocol content_type content_type body body).1
    unfolding compare_as
    compare_as_self empty_protocol content_type body = tt
    compare_as_self json_protocol content_type body = compare_json_payloads_self content_type body
    compare_as_self protobuf_protocol content_type body =
        compare_protobuf_payloads_self content_type body
    compare_as_self protobuf_typed_protocol content_type body =
        compare_protobuf_payloads_self content_type body
    compare_as_self text_protocol content_type body = silent_nil _ (compare_text_self body)

    -- Whatever the options, with or without a schema, ComparePayloads of an answer with itself, by
    -- any content type, reports nothing but decode errors.
    pub compare_payloads_self :
        (content_type body : Text)
        → IsQuiet (compare_payloads std opts wire content_type content_type body body).1
    unfolding compare_payloads
    compare_payloads_self content_type body =
        compare_as_self (choose_protocol std opts wire content_type content_type body body)
          content_type body
