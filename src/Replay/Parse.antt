-- ===== src/Replay/Parse.antt =====
-- The loop of parseProtoWireMessage in pkg/replay/diff.go ends by itself: its fuel is enough.
use diverge.Base.{
  ℕ, zero, suc, ◌≤◌, ◌==◌, [], ◌∷◌, ◌++◌, Text, codes, ◌≡◌, refl, ap, ◌∙◌, arith, if◌then◌else◌,
  length, drop, length-drop, Result, ok, err, ◌>>=◌, >>=-ext,
}
use diverge.Base.Decimal.{format_uint}
use diverge.Replay.Types.{Std}
use diverge.Replay.Wire.{
  bytes_value, WireFields, ProtoWire, no_fields, note_value, consume_value, parse_fields,
}

-- What protowire documents: a tag takes a byte or more, and bytes are part of the input.
pub record Consumes (wire : ProtoWire) : Type 0 where
  pub tag : (b : Text) (num wtype n : ℕ) → wire.consume_tag b ≡ ok (num, wtype, n) → 1 ≤ n
  pub bytes : (b v : Text) (n : ℕ) → wire.consume_bytes b ≡ ok (v, n) → length v ≤ length b

module _ (std : Std) (wire : ProtoWire) where
  consume_value-ext :
      (parse parse' : Text → Result Text WireFields) (depth num wtype : ℕ) (rest : Text)
      → ((v : Text) (n : ℕ) → wire.consume_bytes rest ≡ ok (v, n) → parse v ≡ parse' v)
      → consume_value std wire parse depth num wtype rest
        ≡ consume_value std wire parse' depth num wtype rest
  unfolding consume_value
  consume_value-ext parse parse' depth num wtype rest h =
      let same =
        >>=-ext (wire.consume_bytes rest) (λ (v, n). ok (bytes_value std wire depth v n (parse v)))
          (λ (v, n). ok (bytes_value std wire depth v n (parse' v)))
          (λ (v, n) e. ap (λ r. ok (bytes_value std wire depth v n r)) (h v n e)) in
      rw same refl

  module _ (documented : Consumes wire) where
    parse_fields_fuel :
        (fuel fuel' depth : ℕ) (b : Text) (seen : WireFields)
        → length b ≤ fuel
        → length b ≤ fuel'
        → parse_fields std wire fuel depth b seen ≡ parse_fields std wire fuel' depth b seen
    unfolding parse_fields
    parse_fields_fuel zero zero depth [] seen h h' = refl
    parse_fields_fuel zero (suc fuel') depth [] seen h h' = refl
    parse_fields_fuel (suc fuel) zero depth [] seen h h' = refl
    parse_fields_fuel (suc fuel) (suc fuel') depth [] seen h h' = refl
    parse_fields_fuel zero fuel' depth (c ∷ cs) seen h h' = absurd (omega arith)
    parse_fields_fuel (suc fuel) zero depth (c ∷ cs) seen h h' = absurd (omega arith)
    parse_fields_fuel (suc fuel) (suc fuel') depth (c ∷ cs) seen h h' =
        >>=-ext (wire.consume_tag (c ∷ cs)) _ _ (λ (num, wtype, n) e.
          let rest = drop n (c ∷ cs) in
          let read = documented.tag (c ∷ cs) num wtype n e in
          let short : length rest ≤ length cs = omega (arith, length-drop n (c ∷ cs)) in
          let value =
            consume_value-ext (λ v. parse_fields std wire fuel (suc depth) v no_fields)
              (λ v. parse_fields std wire fuel' (suc depth) v no_fields) depth num wtype rest
              (λ v k q.
                let part = documented.bytes rest v k q in
                parse_fields_fuel fuel fuel' (suc depth) v no_fields (omega (arith, part, short))
                  (omega (arith, part, short))) in
          let next =
            >>=-ext
              (consume_value std wire (λ v. parse_fields std wire fuel' (suc depth) v no_fields)
                depth num wtype rest)
              (λ v. parse_fields std wire fuel depth (drop v.len rest) (note_value num v seen))
              (λ v. parse_fields std wire fuel' depth (drop v.len rest) (note_value num v seen))
              (λ v q.
                let less = length-drop v.len rest in
                parse_fields_fuel fuel fuel' depth (drop v.len rest) (note_value num v seen)
                  (omega (arith, less, short)) (omega (arith, less, short))) in
          ap
            (λ r.
              if num == 0
              then err (codes "invalid protobuf field number " ++ format_uint num)
              else r)
            (ap
                (λ r. r >>= (λ v.
                  parse_fields std wire fuel depth (drop v.len rest) (note_value num v seen)))
                value
              ∙ next))

    -- Where a tag takes a byte or more and bytes are part of their input, as protowire documents:
    -- the loop of parseProtoWireMessage needs no more fuel than the length of its input, nested
    -- messages included.
    pub parse_fields_enough :
        (fuel depth : ℕ) (b : Text) (seen : WireFields)
        → length b ≤ fuel
        → parse_fields std wire fuel depth b seen ≡ parse_fields std wire (length b) depth b seen
    parse_fields_enough fuel depth b seen h =
        parse_fields_fuel fuel (length b) depth b seen h (omega arith)
