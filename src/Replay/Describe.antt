-- ===== src/Replay/Describe.antt =====
-- What pkg/replay/diff.go reads off descriptors and reflected messages before it compares them:
-- describeProtoFieldDescriptor, protoFieldPresent, and the lookups and loops on lists and maps.
use diverge.Base.{
  ℕ, zero, suc, Bool, true, false, ◌==◌, List, [], ◌∷◌, ◌++◌, Option, none, some, Text, codes,
  text_eq, if◌then◌else◌,
}
use diverge.Base.Int.{ℤ}
use diverge.Base.Decimal.{format_uint, format_int}
use diverge.Topology.Sets.{add, text_lt, sort}
use diverge.Replay.Schema.{
  ProtoKind, message_kind, enum_kind, string_kind, bytes_kind, other_kind, ElementDescriptor,
  FieldDescriptor, Slots, no_slots, slot, Content, many, mapping, ProtoValue, ProtoValues,
  no_values, value, Entries, no_entries, entry,
}
use diverge.Replay.Types.{ContractDiff}
use diverge.Replay.Json.{index_path}

-- `fd.Kind().String()`
unfoldable pub kind_name : ProtoKind → Text
kind_name message_kind = codes "message"
kind_name enum_kind = codes "enum"
kind_name string_kind = codes "string"
kind_name bytes_kind = codes "bytes"
kind_name (other_kind name) = name

abbrev pub is_message_kind : ProtoKind → Bool
is_message_kind message_kind = true
is_message_kind _ = false

-- The local variable `kind` of describeProtoFieldDescriptor.
unfoldable pub described_kind : ElementDescriptor → ProtoKind → Text
unfolding kind_name
described_kind el message_kind = el.full_name
described_kind el enum_kind = el.full_name
described_kind el kind = kind_name kind

-- describeProtoFieldDescriptor of a field that is neither a list nor a map, as a map's value is.
unfoldable pub describe_element : ElementDescriptor → Text
unfolding described_kind
describe_element el = described_kind el el.kind ++ codes " (#" ++ format_uint el.number ++ codes ")"

unfoldable pub describe_proto_field_descriptor : FieldDescriptor → Text
unfolding describe_element kind_name
describe_proto_field_descriptor fd =
    if fd.is_list
    then codes "repeated " ++ described_kind fd.element fd.element.kind
    else if fd.is_map
    then codes "map<"
      ++ kind_name fd.map_key.kind
      ++ codes ","
      ++ kind_name fd.map_value.kind
      ++ codes ">"
    else describe_element fd.element

abbrev pub enum_text : ℤ → Option Text → Text
enum_text n none = format_int n
enum_text n (some name) = name

-- `msg.Get(fd)`, by the number of the field.
unfoldable pub find_content : ℕ → Slots → Option Content
find_content num no_slots = none
find_content num (slot n c rest) =
    let later = find_content num rest in if num == n then some c else later

-- What protoFieldPresent leaves of it.
unfoldable pub populated : Option Content → Option Content
populated none = none
populated (some (many no_values)) = none
populated (some (mapping no_entries)) = none
populated (some c) = some c

unfoldable pub count_values : ProtoValues → ℕ
count_values no_values = 0
count_values (value v vs) = suc (count_values vs)

unfoldable pub values_from : ℕ → ProtoValues → ProtoValues
values_from zero vs = vs
values_from (suc n) no_values = no_values
values_from (suc n) (value v vs) = values_from n vs

-- The loop over elements of the preview that the baseline has no counterpart for, from index `i`.
unfoldable pub each_extra_value :
    (Text → ProtoValue → List ContractDiff) → Text → ℕ → ProtoValues → List ContractDiff
unfolding index_path
each_extra_value visit path i no_values = []
each_extra_value visit path i (value p ps) =
    visit (index_path path i) p ++ each_extra_value visit path (suc i) ps

unfoldable pub count_entries : Entries → ℕ
count_entries no_entries = 0
count_entries (entry k v es) = suc (count_entries es)

-- `bMap.Get(mk)`
unfoldable pub find_entry : Text → Entries → Option ProtoValue
find_entry k no_entries = none
find_entry k (entry j v es) = let later = find_entry k es in if text_eq k j then some v else later

-- The keys of two maps, each once and sorted.
unfoldable pub add_entry_keys : Entries → List Text → List Text
add_entry_keys no_entries keys = keys
add_entry_keys (entry k v es) keys = add_entry_keys es (add k keys)

unfoldable pub sorted_entry_keys : Entries → Entries → List Text
unfolding add_entry_keys
sorted_entry_keys bs ps = sort text_lt (add_entry_keys ps (add_entry_keys bs []))

-- The loop over the fields of a descriptor.
unfoldable pub each_field :
    (FieldDescriptor → List ContractDiff) → List FieldDescriptor → List ContractDiff
each_field visit [] = []
each_field visit (fd ∷ fds) = visit fd ++ each_field visit fds
