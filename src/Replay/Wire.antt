-- ===== src/Replay/Wire.antt =====
-- Protobuf messages without a schema in pkg/replay/diff.go, parsed to the fields of the wire.
-- The field Nested of wireFieldSummary is filled but never read, and is left out.
use diverge.Base.{
  ℕ, zero, suc, Bool, true, false, not, ◌&&◌, ◌||◌, ◌==◌, List, [], ◌∷◌, ◌++◌, Option, none, some,
  Text, codes, text_eq, if◌then◌else◌, ltb, all, length, drop, Result, ok, err, ◌>>=◌,
}
use diverge.Base.Decimal.{format_uint}
use diverge.Base.Hex.{hex_encode}
use diverge.Replay.Types.{Std}

-- wireFieldSummary under its number (WireType, Count, Values, NestedMessages), as the entries of a
-- map in the order in which they came, and the lists of such maps.
mutual
  pub data WireFields : Type 0 where
    no_fields : WireFields
    wire_field : ℕ → Text → ℕ → List Text → WireMessages → WireFields → WireFields

  pub data WireMessages : Type 0 where
    no_messages : WireMessages
    messages : WireFields → WireMessages → WireMessages

-- Package protowire: what the Consume functions take from the front of a text, with the number of
-- bytes, or the text of the error.
pub record ProtoWire : Type 0 where
  pub consume_tag : Text → Result Text (ℕ × ℕ × ℕ)
  pub consume_varint : Text → Result Text (ℕ × ℕ)
  pub consume_fixed32 : Text → Result Text (ℕ × ℕ)
  pub consume_fixed64 : Text → Result Text (ℕ × ℕ)
  pub consume_bytes : Text → Result Text (Text × ℕ)
  pub consume_group : ℕ → Text → Result Text (Text × ℕ)
  pub consume_field : Text → Result Text (ℕ × ℕ × ℕ)
  pub hex32 : ℕ → Text
  pub hex64 : ℕ → Text

abbrev pub varint_type : ℕ
varint_type = 0

abbrev pub fixed64_type : ℕ
fixed64_type = 1

abbrev pub bytes_type : ℕ
bytes_type = 2

abbrev pub start_group_type : ℕ
start_group_type = 3

abbrev pub end_group_type : ℕ
end_group_type = 4

abbrev pub fixed32_type : ℕ
fixed32_type = 5

-- `append(entry.NestedMessages, nested)`
unfoldable pub append_message : WireMessages → WireFields → WireMessages
append_message no_messages m = messages m no_messages
append_message (messages n ms) m = messages n (append_message ms m)

unfoldable pub is_no_fields : WireFields → Bool
is_no_fields no_fields = true
is_no_fields (wire_field n w c vs ms rest) = false

-- The wire type, the representation and the nested message of one value.
pub record WireValue : Type 0 where
  pub len : ℕ
  pub wire_type : Text
  pub repr : Text
  pub nested : Option WireFields

-- The wire type of an entry once a value of another kind came.
unfoldable pub join_wire_types : Text → Text → Text
join_wire_types old new =
    if text_eq old new
    then old
    else if text_eq old (codes "bytes/message") && text_eq new (codes "bytes")
        || text_eq old (codes "bytes") && text_eq new (codes "bytes/message")
    then codes "bytes"
    else old ++ b'|' ∷ new

-- Whether the entry drops its nested messages.
unfoldable pub drops_nested : Text → Text → Bool
drops_nested old new =
    text_eq old (codes "bytes/message") && text_eq new (codes "bytes")
    || text_eq old (codes "bytes") && text_eq new (codes "bytes/message")

unfoldable pub note_nested : Text → Option WireFields → WireMessages → WireMessages
unfolding append_message
note_nested wire_type none ms = ms
note_nested wire_type (some m) ms =
    if text_eq wire_type (codes "bytes/message") then append_message ms m else ms

-- A value is counted in the entry of its field, a new one where there is none.
unfoldable pub note_value : ℕ → WireValue → WireFields → WireFields
unfolding join_wire_types drops_nested note_nested
note_value num v no_fields =
    wire_field num v.wire_type 1 (v.repr ∷ []) (note_nested v.wire_type v.nested no_messages)
      no_fields
note_value num v (wire_field n wire_type count values ms rest) =
    let later = note_value num v rest in
    let wire_type' = join_wire_types wire_type v.wire_type in
    let ms' = if drops_nested wire_type v.wire_type then no_messages else ms in
    if num == n
    then wire_field n wire_type' (suc count) (values ++ v.repr ∷ [])
        (note_nested wire_type' v.nested ms') rest
    else wire_field n wire_type count values ms later

-- A printable rune or common white space.
abbrev is_printable_rune : ℕ → Bool
is_printable_rune r = r == 10 || (r == 13 || (r == 9 || not (ltb r 32 || r == 127)))

module _ (std : Std) (wire : ProtoWire) where
  open std use {quote, utf8_valid, runes}
  open wire use {
    consume_tag, consume_varint, consume_fixed32, consume_fixed64, consume_bytes, consume_group,
    consume_field, hex32, hex64,
  }

  unfoldable pub is_printable_utf8 : Text → Bool
  is_printable_utf8 s = all is_printable_rune (runes s)

  -- The loop of isLikelyNestedProtoMessage over the fields of a message.
  unfoldable pub likely_fields : ℕ → Text → Bool
  likely_fields zero rem = true
  likely_fields (suc fuel) [] = true
  likely_fields (suc fuel) (c ∷ cs) = elim (consume_field (c ∷ cs)) [
    | err e ↦ false
    | ok (num, wtype, n) ↦
        let more = likely_fields fuel (drop n (c ∷ cs)) in
        if num == 0 || ltb 19000 num
        then false
        else if wtype == start_group_type || wtype == end_group_type
        then false
        else more
  ]

  unfoldable pub is_likely_nested_proto_message : Text → Bool
  unfolding is_printable_utf8 likely_fields
  is_likely_nested_proto_message b =
      if ltb (length b) 2
      then false
      else if utf8_valid b && is_printable_utf8 b
      then false
      else likely_fields (length b) b

  -- The representation of a length-delimited value.
  unfoldable pub bytes_repr : Text → Text
  unfolding is_printable_utf8
  bytes_repr v = if utf8_valid v && is_printable_utf8 v then quote v else codes "0x" ++ hex_encode v

  -- A length-delimited value, which may hold a message, and whose parsing is `sub`.
  unfoldable pub bytes_value : ℕ → Text → ℕ → Result Text WireFields → WireValue
  unfolding is_likely_nested_proto_message bytes_repr is_no_fields
  bytes_value depth v n sub =
      let plain : WireValue = record {
        len = n;
        wire_type = codes "bytes";
        repr = bytes_repr v;
        nested = none;
      } in
      let with_nested : WireValue = elim sub [
        | err e ↦ plain
        | ok m ↦
            if is_no_fields m
            then plain
            else record plain { wire_type = codes "bytes/message"; nested = some m }
      ] in
      if ltb depth 5 && is_likely_nested_proto_message v then with_nested else plain

  abbrev scalar_value : Text → Text → ℕ → Result Text WireValue
  scalar_value wire_type repr n =
      ok (record { len = n; wire_type = wire_type; repr = repr; nested = none })

  -- The switch on the wire type, where `parse` parses a nested message.
  unfoldable pub consume_value :
      (Text → Result Text WireFields) → ℕ → ℕ → ℕ → Text → Result Text WireValue
  unfolding bytes_value
  consume_value parse depth num wtype rest =
      let unsupported : Result Text WireValue = err (
        codes "unsupported protobuf wire type "
        ++ format_uint wtype
        ++ codes " for field "
        ++ format_uint num) in
      if wtype == varint_type
      then consume_varint rest >>= (λ (v, n). scalar_value (codes "varint") (format_uint v) n)
      else if wtype == fixed32_type
      then consume_fixed32 rest
        >>= (λ (v, n). scalar_value (codes "fixed32") (codes "0x" ++ hex32 v) n)
      else if wtype == fixed64_type
      then consume_fixed64 rest
        >>= (λ (v, n). scalar_value (codes "fixed64") (codes "0x" ++ hex64 v) n)
      else if wtype == bytes_type
      then consume_bytes rest >>= (λ (v, n). ok (bytes_value depth v n (parse v)))
      else if wtype == start_group_type
      then consume_group num rest
        >>= (λ (v, n). scalar_value (codes "group") (codes "0x" ++ hex_encode v) n)
      else unsupported

  -- parseProtoWireMessage: the loop over the fields of a message. Each takes a byte or more, and a
  -- nested message is shorter than the one that holds it.
  unfoldable pub parse_fields : ℕ → ℕ → Text → WireFields → Result Text WireFields
  unfolding consume_value note_value
  parse_fields zero depth b fields = ok fields
  parse_fields (suc fuel) depth [] fields = ok fields
  parse_fields (suc fuel) depth (c ∷ cs) fields = consume_tag (c ∷ cs) >>= (λ (num, wtype, tag_len).
      let rest = drop tag_len (c ∷ cs) in
      let go_on =
        consume_value (λ v. parse_fields fuel (suc depth) v no_fields) depth num wtype rest
        >>= (λ v. parse_fields fuel depth (drop v.len rest) (note_value num v fields)) in
      if num == 0 then err (codes "invalid protobuf field number " ++ format_uint num) else go_on)

  unfoldable pub parse_proto_wire_message : Text → Result Text WireFields
  unfolding parse_fields
  parse_proto_wire_message b = parse_fields (length b) 0 b no_fields
