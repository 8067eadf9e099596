-- ===== src/Replay/WireDiff.antt =====
-- The comparison of Protobuf messages without a schema in pkg/replay/diff.go.
use diverge.Base.{
  ℕ, zero, suc, not, ◌&&◌, ◌==◌, List, [], ◌∷◌, ◌++◌, Option, none, some, Text, codes, text_eq,
  if◌then◌else◌, ltb, any, join,
}
use diverge.Base.Decimal.{format_uint}
use diverge.Topology.Sets.{sort}
use diverge.Replay.Types.{ContractDiff, DiffOptions, Std}
use diverge.Replay.Json.{breaking_diff, truncate_sample, index_path, should_ignore_field}
use diverge.Replay.Wire.{WireFields, WireMessages, no_fields, wire_field, no_messages, messages}

-- A wireFieldSummary that a map holds.
pub record WireSummary : Type 0 where
  pub wire_type : Text
  pub count : ℕ
  pub values : List Text
  pub nested_messages : WireMessages

-- `baseFields[num]`
unfoldable pub wire_lookup : ℕ → WireFields → Option WireSummary
wire_lookup num no_fields = none
wire_lookup num (wire_field n w c vs ms rest) =
    let later = wire_lookup num rest in
    if num == n
    then some (record { wire_type = w; count = c; values = vs; nested_messages = ms })
    else later

-- The numbers of two maps, each once and sorted.
unfoldable pub add_numbers : WireFields → List ℕ → List ℕ
add_numbers no_fields nums = nums
add_numbers (wire_field n w c vs ms rest) nums =
    add_numbers rest (if any (λ m. m == n) nums then nums else n ∷ nums)

unfoldable pub sorted_numbers : WireFields → WireFields → List ℕ
unfolding add_numbers
sorted_numbers base prev = sort ltb (add_numbers prev (add_numbers base []))

unfoldable pub normalize_wire_category : Text → Text
normalize_wire_category w = if text_eq w (codes "bytes/message") then codes "bytes" else w

-- `len(f.NestedMessages)`
unfoldable pub count_messages : WireMessages → ℕ
count_messages no_messages = 0
count_messages (messages m ms) = suc (count_messages ms)

unfoldable pub messages_from : ℕ → WireMessages → WireMessages
messages_from zero ms = ms
messages_from (suc n) no_messages = no_messages
messages_from (suc n) (messages m ms) = messages_from n ms

unfoldable pub each_number : (ℕ → List ContractDiff) → List ℕ → List ContractDiff
each_number visit [] = []
each_number visit (n ∷ ns) = visit n ++ each_number visit ns

-- The loop over messages of the preview that the baseline has no counterpart for.
unfoldable pub each_extra_message :
    (Text → WireFields → List ContractDiff) → Text → ℕ → WireMessages → List ContractDiff
each_extra_message visit path i no_messages = []
each_extra_message visit path i (messages p ps) =
    visit (index_path path i) p ++ each_extra_message visit path (suc i) ps

-- `visit` on the first message, if there is one.
unfoldable pub on_first : (WireFields → List ContractDiff) → WireMessages → List ContractDiff
on_first visit no_messages = []
on_first visit (messages p ps) = visit p

module _ (std : Std) (opts : DiffOptions) where
  open opts use {compare_values, fail_on_extra_fields}

  unfoldable pub diff_counts : Text → WireSummary → WireSummary → List ContractDiff
  diff_counts path b p =
      if b.count == p.count
      then []
      else breaking_diff path (codes "count_mismatch") (codes "count=" ++ format_uint b.count)
          (codes "count=" ++ format_uint p.count)
        ∷ []

  unfoldable pub diff_values : Text → WireSummary → WireSummary → List ContractDiff
  unfolding truncate_sample
  diff_values path b p =
      let b_joined = join b',' b.values in
      let p_joined = join b',' p.values in
      if text_eq b_joined p_joined
      then []
      else breaking_diff path (codes "value_mismatch") (truncate_sample b_joined 80)
          (truncate_sample p_joined 80)
        ∷ []

  -- A field that both messages have; `nested` compares its nested messages.
  unfoldable pub diff_both :
      (WireMessages → List ContractDiff) → Text → WireSummary → WireSummary → List ContractDiff
  unfolding diff_counts diff_values normalize_wire_category count_messages
  diff_both nested path b p =
      if not (text_eq (normalize_wire_category b.wire_type) (normalize_wire_category p.wire_type))
      then breaking_diff path (codes "wire_type_mismatch") b.wire_type p.wire_type ∷ []
      else if ltb 0 (count_messages b.nested_messages) && ltb 0 (count_messages p.nested_messages)
      then (if compare_values then diff_counts path b p else []) ++ nested p.nested_messages
      else if not compare_values
      then []
      else if b.count == p.count
      then diff_values path b p
      else diff_counts path b p

  unfoldable pub diff_wire_field :
      (WireMessages → List ContractDiff)
      → Text
      → Option WireSummary
      → Option WireSummary
      → List ContractDiff
  unfolding diff_both
  diff_wire_field nested path none none = []
  diff_wire_field nested path (some b) none =
      breaking_diff path (codes "missing_field") b.wire_type (codes "absent") ∷ []
  diff_wire_field nested path none (some p) =
      record {
        path = path;
        kind = codes "extra_field";
        baseline = codes "absent";
        preview = p.wire_type;
        breaking = fail_on_extra_fields;
      }
      ∷ []
  diff_wire_field nested path (some b) (some p) = diff_both nested path b p

  -- One round of the loop of diffProtoWireMessages.
  unfoldable pub visit_number :
      (Text → ℕ → WireMessages → List ContractDiff)
      → Text
      → WireFields
      → WireFields
      → ℕ
      → List ContractDiff
  unfolding diff_wire_field wire_lookup should_ignore_field
  visit_number nested prefix base prev num =
      let field_path = prefix ++ codes ".field_" ++ format_uint num in
      if should_ignore_field std opts field_path
      then []
      else diff_wire_field (λ ps. nested field_path num ps) field_path (wire_lookup num base)
          (wire_lookup num prev)

  -- The body of diffProtoWireMessages, where `nested` compares the nested messages of a field.
  unfoldable pub diff_fields :
      (Text → ℕ → WireMessages → List ContractDiff)
      → Text
      → WireFields
      → WireFields
      → List ContractDiff
  unfolding each_number visit_number sorted_numbers
  diff_fields nested prefix base prev =
      each_number (visit_number nested prefix base prev) (sorted_numbers base prev)

  unfoldable mutual
    unfolding diff_fields index_path messages_from count_messages each_extra_message on_first

    -- The nested messages of a field of the baseline against those of the preview.
    pub diff_nested : WireFields → Text → ℕ → WireMessages → List ContractDiff
    diff_nested no_fields path num ps = []
    diff_nested (wire_field n w c vs ms rest) path num ps =
        let here = diff_messages ms path ps in
        let later = diff_nested rest path num ps in if num == n then here else later

    -- One message on each side is compared under the field's path, more under their indices.
    pub diff_messages : WireMessages → Text → WireMessages → List ContractDiff
    diff_messages no_messages path ps = []
    diff_messages (messages m ms) path ps =
        let first : Text → WireFields → List ContractDiff =
          λ q p. diff_fields (λ q' n ps'. diff_nested m q' n ps') q m p in
        let n = suc (count_messages ms) in
        let extra = each_extra_message first path n (messages_from n ps) in
        let indexed =
          on_first (first (index_path path 0)) ps ++ diff_indexed ms path 1 (messages_from 1 ps) in
        if n == 1 && count_messages ps == 1
        then on_first (first path) ps
        else indexed ++ (if compare_values then [] else extra)

    pub diff_indexed : WireMessages → Text → ℕ → WireMessages → List ContractDiff
    diff_indexed no_messages path i ps = []
    diff_indexed (messages m ms) path i no_messages = []
    diff_indexed (messages m ms) path i (messages p ps) =
        diff_fields (λ q' n ps'. diff_nested m q' n ps') (index_path path i) m p
        ++ diff_indexed ms path (suc i) ps

  -- diffProtoWireMessages
  unfoldable pub diff_proto_wire_messages : Text → WireFields → WireFields → List ContractDiff
  unfolding diff_fields diff_nested
  diff_proto_wire_messages prefix base prev =
      diff_fields (λ q n ps. diff_nested base q n ps) prefix base prev
