-- ===== src/Replay/ReflectSelf.antt =====
-- The comparison of pkg/replay/diff.go by a schema finds nothing between a Protobuf message and itself.
use diverge.Base.{
  ℕ, suc, Bool, true, false, ◌==◌, List, [], ◌∷◌, ◌++◌, Option, none, some, Text, text_eq,
  text_eq_refl, ◌≡◌, ◌⊎◌, inl, inr, refl, arith, if◌then◌else◌, Bool-cases,
}
use diverge.Replay.Schema.{
  ElementDescriptor, FieldDescriptor, ProtoScalar, ProtoMessage, message, Slots, no_slots, slot,
  Content, one, many, mapping, ProtoValue, scalar, nested, ProtoValues, no_values, value, Entries,
  no_entries, entry,
}
use diverge.Replay.Types.{ContractDiff, DiffOptions, Std}
use diverge.Replay.Json.{index_path}
use diverge.Replay.Same.{append_nil_iff, each_key_nil_iff}
use diverge.Replay.Wire.{ProtoWire, parse_proto_wire_message}
use diverge.Replay.WireSelf.{diff_proto_wire_messages_self}
use diverge.Replay.Describe.{
  find_content, populated, count_values, values_from, each_extra_value, count_entries, find_entry,
  sorted_entry_keys, each_field,
}
use diverge.Replay.Reflect.{
  format_proto_scalar, format_map_key, diff_proto_scalars, diff_lengths, diff_presence,
  visit_proto_field, diff_entry_presence, visit_entry, fields_of, diff_unknown, diff_reflected,
  diff_slot, diff_content, diff_value, diff_values, diff_extra_values, diff_entry,
}

values_from-count : (vs : ProtoValues) → values_from (count_values vs) vs ≡ no_values
unfolding values_from count_values
values_from-count no_values = refl
values_from-count (value v vs) = values_from-count vs

each_field-nil :
    (visit : FieldDescriptor → List ContractDiff) (fds : List FieldDescriptor)
    → ((fd : FieldDescriptor) → visit fd ≡ [])
    → each_field visit fds ≡ []
unfolding each_field
each_field-nil visit [] h = refl
each_field-nil visit (fd ∷ fds) h = (append_nil_iff _ _).1 (h fd, each_field-nil visit fds h)

extra_values_none :
    (visit : Text → ProtoValue → List ContractDiff) (path : Text) (i : ℕ) (vs : ProtoValues)
    → each_extra_value visit path i (values_from (count_values vs) vs) ≡ []
unfolding each_extra_value
extra_values_none visit path i vs = rw (values_from-count vs) refl

nil_or : (c : Bool) (ds : List ContractDiff) → ds ≡ [] → (if c then [] else ds) ≡ []
nil_or true ds h = refl
nil_or false ds h = h

or_nil : (c : Bool) (ds : List ContractDiff) → ds ≡ [] → (if c then ds else []) ≡ []
or_nil true ds h = h
or_nil false ds h = refl

-- Being populated takes a content or leaves it as it is.
populated-cases :
    (o : Option Content)
    → (populated o ≡ none) ⊎ ((c : Content) × (populated o ≡ some c) × (o ≡ some c))
unfolding populated
populated-cases none = inl refl
populated-cases (some (one v)) = inr (one v, refl, refl)
populated-cases (some (many no_values)) = inl refl
populated-cases (some (many (value v vs))) = inr (many (value v vs), refl, refl)
populated-cases (some (mapping no_entries)) = inl refl
populated-cases (some (mapping (entry k v es))) = inr (mapping (entry k v es), refl, refl)

module _ (std : Std) (opts : DiffOptions) where
  diff_proto_scalars_self :
      (path : Text) (el : ElementDescriptor) (v : ProtoScalar)
      → diff_proto_scalars std opts path el v v ≡ []
  unfolding diff_proto_scalars
  diff_proto_scalars_self path el v = elim (Bool-cases opts.compare_values) [
    | inl e ↦ rw (text_eq_refl (format_proto_scalar std opts el el.kind v), e) refl
    | inr e ↦ rw e refl
  ]

  diff_lengths_self : (path : Text) (n : ℕ) → diff_lengths std opts path n n ≡ []
  unfolding diff_lengths
  diff_lengths_self path n =
      let same : n == n ≡ true = ground arith in
      elim (Bool-cases opts.compare_values) [ inl v ↦ rw (same, v) refl | inr v ↦ rw v refl ]

  diff_presence_self :
      (both : Content → List ContractDiff) (fd : FieldDescriptor) (path : Text) (o : Option Content)
      → ((c : Content) → o ≡ some c → both c ≡ [])
      → diff_presence std opts both fd path (populated o) (populated o) ≡ []
  unfolding diff_presence
  diff_presence_self both fd path o h = elim (populated-cases o) [
    | inl e ↦ rw e refl
    | inr (c, e, at) ↦ rw e (h c at)
  ]

  visit_proto_field_self :
      (both : FieldDescriptor → Text → Content → List ContractDiff) (path : Text) (bs : Slots)
      (fd : FieldDescriptor)
      → ((q : Text) (c : Content) → find_content fd.element.number bs ≡ some c → both fd q c ≡ [])
      → visit_proto_field std opts both path bs bs fd ≡ []
  unfolding visit_proto_field
  visit_proto_field_self both path bs fd h =
      let q = path ++ b'.' ∷ fd.name in
      nil_or _ _
        (diff_presence_self (both fd q) fd q (find_content fd.element.number bs) (λ c at. h q c at))

  diff_entry_presence_self :
      (both : ProtoValue → List ContractDiff) (el : ElementDescriptor) (path : Text)
      (o : Option ProtoValue)
      → ((v : ProtoValue) → o ≡ some v → both v ≡ [])
      → diff_entry_presence std opts both el path o o ≡ []
  unfolding diff_entry_presence
  diff_entry_presence_self both el path none h = refl
  diff_entry_presence_self both el path (some v) h = h v refl

  visit_entry_self :
      (both : Text → Text → ProtoValue → List ContractDiff) (fd : FieldDescriptor) (path : Text)
      (es : Entries) (k : Text)
      → ((q : Text) (v : ProtoValue) → find_entry k es ≡ some v → both q k v ≡ [])
      → visit_entry std opts both fd path es es k ≡ []
  unfolding visit_entry
  visit_entry_self both fd path es k h =
      let q = path ++ b'[' ∷ format_map_key std opts fd.map_key.kind k ++ b']' ∷ [] in
      nil_or _ _
        (diff_entry_presence_self (both q k) fd.map_value q (find_entry k es) (λ v at. h q v at))

  module _ (wire : ProtoWire) where
    diff_unknown_self : (path unknown : Text) → diff_unknown std opts wire path unknown unknown ≡ []
    unfolding diff_unknown
    diff_unknown_self path unknown = or_nil _ _ (
        diff_proto_wire_messages_self std opts path
          (fields_of std opts wire (parse_proto_wire_message std wire unknown)))

    diff_extra_values_self :
        (path : Text) (el : ElementDescriptor) (vs : ProtoValues)
        → diff_extra_values std opts wire path el vs vs ≡ []
    unfolding diff_extra_values values_from
    diff_extra_values_self path el no_values = refl
    diff_extra_values_self path el (value v vs) = or_nil _ _ (
        extra_values_none (λ q p. diff_value std opts wire q el v p) path (suc (count_values vs))
          vs)

    -- Every field of the slots that is compared with its own content is found the same.
    abbrev SlotsSelf : Slots → Type 0
    SlotsSelf bs =
        (path : Text) (fd : FieldDescriptor) (c : Content)
        → find_content fd.element.number bs ≡ some c
        → diff_slot std opts wire path fd bs c ≡ []

    abbrev EntriesSelf : Entries → Type 0
    EntriesSelf es =
        (path : Text) (el : ElementDescriptor) (k : Text) (v : ProtoValue)
        → find_entry k es ≡ some v
        → diff_entry std opts wire path el k es v ≡ []

    message_nil :
        (path : Text) (fds : List FieldDescriptor) (bs : Slots) (unknown : Text)
        → SlotsSelf bs
        → diff_reflected std opts wire path (message fds bs unknown) (message fds bs unknown) ≡ []
    unfolding diff_reflected
    message_nil path fds bs unknown h = nil_or _ _ (
        (append_nil_iff _ _).1 (
          each_field-nil _ fds (λ fd.
              visit_proto_field_self (λ fd q p. diff_slot std opts wire q fd bs p) path bs fd
                (λ q c at. h q fd c at)),
          diff_unknown_self path unknown,
        ))

    mapping_nil :
        (path : Text) (fd : FieldDescriptor) (es : Entries)
        → EntriesSelf es
        → diff_content std opts wire path fd (mapping es) (mapping es) ≡ []
    unfolding diff_content
    mapping_nil path fd es h =
        let both : Text → Text → ProtoValue → List ContractDiff =
          λ q k p. diff_entry std opts wire q fd.map_value k es p in
        (append_nil_iff _ _).1 (
          diff_lengths_self path (count_entries es),
          (each_key_nil_iff (visit_entry std opts both fd path es es) (sorted_entry_keys es es)).1
              (λ k i. visit_entry_self both fd path es k (λ q v at. h q fd.map_value k v at)),
        )

    mutual
      unfolding find_content find_entry diff_slot diff_content diff_value diff_values diff_entry

      message_self : (path : Text) (m : ProtoMessage) → diff_reflected std opts wire path m m ≡ []
      message_self path (message fds bs unknown) = message_nil path fds bs unknown (slots_self bs)

      slots_self : (bs : Slots) → SlotsSelf bs
      slots_self no_slots path fd c at = absurd (cc at)
      slots_self (slot n b rest) path fd c at = elim (Bool-cases (fd.element.number == n)) [
        | inl e ↦
            let found : some b ≡ some c = rw e at at in
            let same : b ≡ c = cc found in rw (← same, e) (content_self path fd b)
        | inr e ↦ rw e (slots_self rest path fd c (rw e at at))
      ]

      content_self :
          (path : Text) (fd : FieldDescriptor) (c : Content)
          → diff_content std opts wire path fd c c ≡ []
      content_self path fd (one v) = value_self path fd.element v
      content_self path fd (many vs) = (append_nil_iff _ _).1 (
        diff_lengths_self path (count_values vs),
        (append_nil_iff _ _).1
            (values_self path fd.element 0 vs, diff_extra_values_self path fd.element vs),
      )
      content_self path fd (mapping es) = mapping_nil path fd es (entries_self es)

      value_self :
          (path : Text) (el : ElementDescriptor) (v : ProtoValue)
          → diff_value std opts wire path el v v ≡ []
      value_self path el (scalar v) = diff_proto_scalars_self path el v
      value_self path el (nested m) = message_self path m

      values_self :
          (path : Text) (el : ElementDescriptor) (i : ℕ) (vs : ProtoValues)
          → diff_values std opts wire path el i vs vs ≡ []
      values_self path el i no_values = refl
      values_self path el i (value v vs) =
          (append_nil_iff _ _).1
            (value_self (index_path path i) el v, values_self path el (suc i) vs)

      entries_self : (es : Entries) → EntriesSelf es
      entries_self no_entries path el k v at = absurd (cc at)
      entries_self (entry j w es) path el k v at = elim (Bool-cases (text_eq k j)) [
        | inl e ↦
            let found : some w ≡ some v = rw e at at in
            let same : w ≡ v = cc found in rw (← same, e) (value_self path el w)
        | inr e ↦ rw e (entries_self es path el k v (rw e at at))
      ]

    -- Nothing is reported between a message and itself, whatever the options.
    pub diff_reflected_self :
        (path : Text) (m : ProtoMessage) → diff_reflected std opts wire path m m ≡ []
    diff_reflected_self path m = message_self path m
