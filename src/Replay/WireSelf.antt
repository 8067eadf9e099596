-- ===== src/Replay/WireSelf.antt =====
-- The comparison of pkg/replay/diff.go finds nothing between a Protobuf message and itself.
use diverge.Base.{
  ℕ, suc, Bool, true, false, ◌==◌, List, [], ◌∷◌, ◌++◌, some, Text, codes, text_eq_refl, join, ◌≡◌,
  inl, inr, refl, ap, arith, if◌then◌else◌, ltb, Bool-cases, Option-cases,
}
use diverge.Base.Decimal.{format_uint}
use diverge.Replay.Types.{ContractDiff, DiffOptions, Std}
use diverge.Replay.Json.{index_path, should_ignore_field}
use diverge.Replay.Wire.{WireFields, WireMessages, no_fields, wire_field, no_messages, messages}
use diverge.Replay.WireDiff.{
  WireSummary, wire_lookup, normalize_wire_category, count_messages, messages_from, each_number,
  each_extra_message, on_first, diff_counts, diff_values, diff_both, diff_wire_field, visit_number,
  diff_fields, diff_nested, diff_messages, diff_indexed, diff_proto_wire_messages, sorted_numbers,
}
use diverge.Replay.Same.{append_nil_iff}

messages_from-count : (ms : WireMessages) → messages_from (count_messages ms) ms ≡ no_messages
unfolding messages_from count_messages
messages_from-count no_messages = refl
messages_from-count (messages m ms) = messages_from-count ms

each_number-nil :
    (visit : ℕ → List ContractDiff) (ns : List ℕ)
    → ((n : ℕ) → visit n ≡ [])
    → each_number visit ns ≡ []
unfolding each_number
each_number-nil visit [] h = refl
each_number-nil visit (n ∷ ns) h = (append_nil_iff _ _).1 (h n, each_number-nil visit ns h)

either_nil : (c : Bool) (ds : List ContractDiff) → ds ≡ [] → (if c then [] else ds) ≡ []
either_nil true ds h = refl
either_nil false ds h = h

module _ (std : Std) (opts : DiffOptions) where
  diff_counts_self : (path : Text) (b : WireSummary) → diff_counts std opts path b b ≡ []
  unfolding diff_counts
  diff_counts_self path b = let e : b.count == b.count ≡ true = ground arith in rw e refl

  diff_values_self : (path : Text) (b : WireSummary) → diff_values std opts path b b ≡ []
  unfolding diff_values
  diff_values_self path b = rw (text_eq_refl (join b',' b.values)) refl

  diff_both_self :
      (nested : WireMessages → List ContractDiff) (path : Text) (b : WireSummary)
      → nested b.nested_messages ≡ []
      → diff_both std opts nested path b b ≡ []
  unfolding diff_both
  diff_both_self nested path b h =
      let same = text_eq_refl (normalize_wire_category b.wire_type) in
      let counts = diff_counts_self path b in
      let values = diff_values_self path b in
      elim (Bool-cases (ltb 0 (count_messages b.nested_messages))) [
        | inl e ↦ elim (Bool-cases opts.compare_values) [
          | inl v ↦ rw (same, e, v, h, counts) refl
          | inr v ↦ rw (same, e, v, h) refl
        ]
        | inr e ↦ elim (Bool-cases opts.compare_values) [
          | inl v ↦ let c : b.count == b.count ≡ true = ground arith in rw (same, e, v, c) values
          | inr v ↦ rw (same, e, v) refl
        ]
      ]

  visit_number_self :
      (nested : Text → ℕ → WireMessages → List ContractDiff) (path : Text) (m : WireFields) (n : ℕ)
      → ((q : Text) (b : WireSummary)
          → wire_lookup n m ≡ some b
          → nested q n b.nested_messages ≡ [])
      → visit_number std opts nested path m m n ≡ []
  unfolding visit_number diff_wire_field
  visit_number_self nested path m n h =
      let field_path = path ++ codes ".field_" ++ format_uint n in
      elim (Bool-cases (should_ignore_field std opts field_path)) [
        | inl e ↦ rw e refl
        | inr e ↦ elim (Option-cases (wire_lookup n m)) [
          | inl none_at ↦ rw (e, none_at) refl
          | inr (b, at) ↦
              rw (e, at)
                (diff_both_self (λ ps. nested field_path n ps) field_path b (h field_path b at))
        ]
      ]

  abbrev NestedSelf : WireFields → Type 0
  NestedSelf m =
      (q : Text) (n : ℕ) (b : WireSummary)
      → wire_lookup n m ≡ some b
      → diff_nested std opts m q n b.nested_messages ≡ []

  abbrev against : WireFields → Text → ℕ → WireMessages → List ContractDiff
  against m q n ps = diff_nested std opts m q n ps

  diff_fields_self :
      (m : WireFields)
      → NestedSelf m
      → (path : Text) → diff_fields std opts (against m) path m m ≡ []
  unfolding diff_fields
  diff_fields_self m h path =
      each_number-nil (visit_number std opts (against m) path m m) (sorted_numbers m m)
        (λ n. visit_number_self (against m) path m n (λ q b at. h q n b at))

  -- The clause for a list with a first message.
  diff_messages_first :
      (m : WireFields) (ms : WireMessages) (path : Text)
      → diff_fields std opts (against m) path m m ≡ []
      → diff_fields std opts (against m) (index_path path 0) m m ≡ []
      → diff_indexed std opts ms path 1 ms ≡ []
      → diff_messages std opts (messages m ms) path (messages m ms) ≡ []
  unfolding diff_messages on_first messages_from count_messages each_extra_message
  diff_messages_first m ms path alone first rest =
      elim (Bool-cases (suc (count_messages ms) == 1)) [
        | inl e ↦ rw e alone
        | inr e ↦
            let extra =
              ap
                (each_extra_message (λ q p. diff_fields std opts (against m) q m p) path
                  (suc (count_messages ms)))
                (messages_from-count ms) in
            rw e (
              (append_nil_iff _ _).1
                ((append_nil_iff _ _).1 (first, rest), either_nil opts.compare_values _ extra))
      ]

  mutual
    unfolding wire_lookup diff_messages

    nested_self : (m : WireFields) → NestedSelf m
    nested_self no_fields q num b at = absurd (cc at)
    nested_self (wire_field n w c vs ms rest) q num b at = elim (Bool-cases (num == n)) [
      | inl e ↦
          let same : some (record { wire_type = w; count = c; values = vs; nested_messages = ms })
              ≡ some b =
            rw e at at in
          let here : record { wire_type = w; count = c; values = vs; nested_messages = ms } ≡ b =
            cc same in
          rw (← here) (rw e (messages_self ms q))
      | inr e ↦ rw e (nested_self rest q num b (rw e at at))
    ]

    messages_self : (ms : WireMessages) (path : Text) → diff_messages std opts ms path ms ≡ []
    messages_self no_messages path = refl
    messages_self (messages m ms) path =
        diff_messages_first m ms path (diff_fields_self m (nested_self m) path)
          (diff_fields_self m (nested_self m) (index_path path 0)) (indexed_self ms path 1)

    indexed_self :
        (ms : WireMessages) (path : Text) (i : ℕ) → diff_indexed std opts ms path i ms ≡ []
    indexed_self no_messages path i = refl
    indexed_self (messages m ms) path i =
        (append_nil_iff _ _).1
          (diff_fields_self m (nested_self m) (index_path path i), indexed_self ms path (suc i))

  -- Nothing is reported between a message and itself, whatever the options.
  pub diff_proto_wire_messages_self :
      (path : Text) (m : WireFields) → diff_proto_wire_messages std opts path m m ≡ []
  unfolding diff_proto_wire_messages
  diff_proto_wire_messages_self path m = diff_fields_self m (nested_self m) path
