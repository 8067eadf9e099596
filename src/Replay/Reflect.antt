-- ===== src/Replay/Reflect.antt =====
-- The comparison of Protobuf messages by a schema in pkg/replay/diff.go: compareDynamicProtoMessages,
-- diffReflectedProtoMessages and diffReflectedProtoMaps.
use diverge.Base.{
  ℕ, suc, not, ◌&&◌, ◌||◌, ◌==◌, List, [], ◌∷◌, ◌++◌, Option, none, some, Text, codes, text_eq,
  if◌then◌else◌, Result, ok, err,
}
use diverge.Base.Decimal.{format_uint}
use diverge.Base.Hex.{hex_encode}
use diverge.Replay.Schema.{
  ProtoKind, enum_kind, string_kind, bytes_kind, ElementDescriptor, FieldDescriptor, ProtoScalar,
  ProtoMessage, message, Slots, no_slots, slot, Content, one, many, mapping, ProtoValue, scalar,
  nested, ProtoValues, no_values, value, Entries, no_entries, entry,
}
use diverge.Replay.Types.{ContractDiff, DiffOptions, Std}
use diverge.Replay.Json.{breaking_diff, truncate_sample, index_path, each_key, should_ignore_field}
use diverge.Replay.Wire.{WireFields, no_fields, ProtoWire, parse_proto_wire_message, is_no_fields}
use diverge.Replay.WireDiff.{diff_proto_wire_messages}
use diverge.Replay.Describe.{
  is_message_kind, describe_element, describe_proto_field_descriptor, enum_text, find_content,
  populated, count_values, values_from, each_extra_value, count_entries, find_entry,
  sorted_entry_keys, each_field,
}

module _ (std : Std) (opts : DiffOptions) where
  open std use {quote}
  open opts use {compare_values, fail_on_extra_fields}

  unfoldable pub format_proto_scalar : ElementDescriptor → ProtoKind → ProtoScalar → Text
  unfolding hex_encode
  format_proto_scalar el string_kind v = quote v.string
  format_proto_scalar el bytes_kind v = codes "0x" ++ hex_encode v.bytes
  format_proto_scalar el enum_kind v = enum_text v.enum (el.enum_name v.enum)
  format_proto_scalar el kind v = v.string

  -- formatProtoScalar of a key, which is a string, a number or a Boolean.
  unfoldable pub format_map_key : ProtoKind → Text → Text
  format_map_key string_kind k = quote k
  format_map_key kind k = k

  unfoldable pub diff_proto_scalars :
      Text → ElementDescriptor → ProtoScalar → ProtoScalar → List ContractDiff
  unfolding format_proto_scalar truncate_sample
  diff_proto_scalars path el b p =
      let b_str = format_proto_scalar el el.kind b in
      let p_str = format_proto_scalar el el.kind p in
      if compare_values && not (text_eq b_str p_str)
      then breaking_diff path (codes "value_mismatch") (truncate_sample b_str 80)
          (truncate_sample p_str 80)
        ∷ []
      else []

  unfoldable pub diff_lengths : Text → ℕ → ℕ → List ContractDiff
  diff_lengths path b p =
      if compare_values && not (b == p)
      then breaking_diff path (codes "count_mismatch") (codes "len=" ++ format_uint b)
          (codes "len=" ++ format_uint p)
        ∷ []
      else []

  -- One field by its presence on the two sides, where `both` compares the contents.
  unfoldable pub diff_presence :
      (Content → List ContractDiff)
      → FieldDescriptor
      → Text
      → Option Content
      → Option Content
      → List ContractDiff
  unfolding describe_proto_field_descriptor
  diff_presence both fd path (some b) none =
      breaking_diff path (codes "missing_field") (describe_proto_field_descriptor fd)
        (codes "absent")
      ∷ []
  diff_presence both fd path none (some p) =
      record {
        path = path;
        kind = codes "extra_field";
        baseline = codes "absent";
        preview = describe_proto_field_descriptor fd;
        breaking = fail_on_extra_fields;
      }
      ∷ []
  diff_presence both fd path (some b) (some p) = both p
  diff_presence both fd path none none = []

  -- One round of the loop over fields.
  unfoldable pub visit_proto_field :
      (FieldDescriptor → Text → Content → List ContractDiff)
      → Text
      → Slots
      → Slots
      → FieldDescriptor
      → List ContractDiff
  unfolding should_ignore_field diff_presence populated find_content
  visit_proto_field both path bs ps fd =
      let child_path = path ++ b'.' ∷ fd.name in
      let num = fd.element.number in
      if should_ignore_field std opts child_path
        || should_ignore_field std opts (codes "field_" ++ format_uint num)
      then []
      else diff_presence (both fd child_path) fd child_path (populated (find_content num bs))
          (populated (find_content num ps))

  -- One key by its presence in the two maps, where `both` compares the values.
  unfoldable pub diff_entry_presence :
      (ProtoValue → List ContractDiff)
      → ElementDescriptor
      → Text
      → Option ProtoValue
      → Option ProtoValue
      → List ContractDiff
  unfolding describe_element
  diff_entry_presence both el path (some b) none =
      if compare_values || is_message_kind el.kind
      then breaking_diff path (codes "missing_field") (describe_element el) (codes "absent") ∷ []
      else []
  diff_entry_presence both el path none (some p) =
      if compare_values || fail_on_extra_fields || is_message_kind el.kind
      then record {
        path = path;
        kind = codes "extra_field";
        baseline = codes "absent";
        preview = describe_element el;
        breaking = compare_values || fail_on_extra_fields;
      }
        ∷ []
      else []
  diff_entry_presence both el path (some b) (some p) = both p
  diff_entry_presence both el path none none = []

  -- One round of the loop over keys.
  unfoldable pub visit_entry :
      (Text → Text → ProtoValue → List ContractDiff)
      → FieldDescriptor
      → Text
      → Entries
      → Entries
      → Text
      → List ContractDiff
  unfolding should_ignore_field diff_entry_presence format_map_key find_entry
  visit_entry both fd path bs ps k =
      let entry_path = path ++ b'[' ∷ format_map_key fd.map_key.kind k ++ b']' ∷ [] in
      if should_ignore_field std opts entry_path || should_ignore_field std opts (path ++ b'.' ∷ k)
      then []
      else diff_entry_presence (both entry_path k) fd.map_value entry_path (find_entry k bs)
          (find_entry k ps)

  module _ (wire : ProtoWire) where
    -- `fields, _ := parseProtoWireMessage(…)`: no fields beside an error.
    abbrev pub fields_of : Result Text WireFields → WireFields
    fields_of (ok fields) = fields
    fields_of (err e) = no_fields

    -- The unknown fields, by the wire.
    unfoldable pub diff_unknown : Text → Text → Text → List ContractDiff
    unfolding diff_proto_wire_messages is_no_fields parse_proto_wire_message
    diff_unknown path bu pu =
        let base = fields_of (parse_proto_wire_message std wire bu) in
        let prev = fields_of (parse_proto_wire_message std wire pu) in
        if not (is_no_fields base) || not (is_no_fields prev)
        then diff_proto_wire_messages std opts path base prev
        else []

    unfoldable mutual
      unfolding should_ignore_field each_field visit_proto_field diff_unknown diff_lengths
          count_values values_from each_extra_value count_entries each_key visit_entry
          sorted_entry_keys index_path diff_proto_scalars

      -- diffReflectedProtoMessages
      pub diff_reflected : Text → ProtoMessage → ProtoMessage → List ContractDiff
      diff_reflected path (message fds bs bu) (message fds' ps pu) =
          if should_ignore_field std opts path
          then []
          else each_field (visit_proto_field (λ fd q p. diff_slot q fd bs p) path bs ps) fds
            ++ diff_unknown path bu pu

      -- A field that both messages have: `baseMsg.Get(fd)` against the content `p`.
      pub diff_slot : Text → FieldDescriptor → Slots → Content → List ContractDiff
      diff_slot path fd no_slots p = []
      diff_slot path fd (slot n c rest) p =
          let here = diff_content path fd c p in
          let later = diff_slot path fd rest p in if fd.element.number == n then here else later

      pub diff_content : Text → FieldDescriptor → Content → Content → List ContractDiff
      diff_content path fd (one b) (one p) = diff_value path fd.element b p
      diff_content path fd (many bs) (many ps) =
          diff_lengths path (count_values bs) (count_values ps)
          ++ (diff_values path fd.element 0 bs ps ++ diff_extra_values path fd.element bs ps)
      diff_content path fd (mapping bs) (mapping ps) =
          diff_lengths path (count_entries bs) (count_entries ps)
          ++ each_key (visit_entry (λ q k p. diff_entry q fd.map_value k bs p) fd path bs ps)
              (sorted_entry_keys bs ps)
      diff_content path fd b p = []

      pub diff_value : Text → ElementDescriptor → ProtoValue → ProtoValue → List ContractDiff
      diff_value path el (nested b) (nested p) = diff_reflected path b p
      diff_value path el (scalar b) (scalar p) = diff_proto_scalars path el b p
      diff_value path el b p = []

      -- The elements that both lists have, from index `i`.
      pub diff_values : Text → ElementDescriptor → ℕ → ProtoValues → ProtoValues → List ContractDiff
      diff_values path el i no_values ps = []
      diff_values path el i (value b bs) no_values = []
      diff_values path el i (value b bs) (value p ps) =
          diff_value (index_path path i) el b p ++ diff_values path el (suc i) bs ps

      -- The further messages of the preview, against the first of the baseline.
      pub diff_extra_values :
          Text → ElementDescriptor → ProtoValues → ProtoValues → List ContractDiff
      diff_extra_values path el no_values ps = []
      diff_extra_values path el (value b bs) ps =
          let n = suc (count_values bs) in
          let extra = each_extra_value (λ q p. diff_value q el b p) path n (values_from n ps) in
          if is_message_kind el.kind && not compare_values then extra else []

      -- `bMap.Get(mk)` against the value `p`.
      pub diff_entry : Text → ElementDescriptor → Text → Entries → ProtoValue → List ContractDiff
      diff_entry path el k no_entries p = []
      diff_entry path el k (entry j b bs) p =
          let here = diff_value path el b p in
          let later = diff_entry path el k bs p in if text_eq k j then here else later

    -- The two messages that proto.Unmarshal decodes.
    unfoldable pub compare_unmarshaled :
        Result Text ProtoMessage → Result Text ProtoMessage → List ContractDiff
    unfolding diff_reflected
    compare_unmarshaled (ok b) (ok p) = diff_reflected (codes "$") b p
    compare_unmarshaled (err e) (ok p) =
        breaking_diff (codes "$") (codes "decode_error") (codes "proto unmarshal failed: " ++ e)
          (codes "valid")
        ∷ []
    compare_unmarshaled (ok b) (err e) =
        breaking_diff (codes "$") (codes "decode_error") (codes "valid")
          (codes "proto unmarshal failed: " ++ e)
        ∷ []
    compare_unmarshaled (err e) (err e') =
        breaking_diff (codes "$") (codes "decode_error") (codes "proto unmarshal failed: " ++ e)
          (codes "valid")
        ∷ breaking_diff (codes "$") (codes "decode_error") (codes "valid")
            (codes "proto unmarshal failed: " ++ e')
        ∷ []

    -- compareDynamicProtoMessages
    unfoldable pub compare_dynamic_proto_messages :
        (Text → Result Text ProtoMessage) → Text → Text → List ContractDiff
    unfolding compare_unmarshaled
    compare_dynamic_proto_messages unmarshal base_raw prev_raw =
        compare_unmarshaled (unmarshal base_raw) (unmarshal prev_raw)
