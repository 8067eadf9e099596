-- ===== src/Replay/Frames.antt =====
-- The 5-byte framing of gRPC and Connect in pkg/replay/diff.go.
use diverge.Base.{
  ℕ, zero, suc, ◌+◌, ◌*◌, ◌/◌, ◌%◌, Bool, true, false, not, ◌&&◌, ◌||◌, List, [], ◌∷◌, ◌++◌, Option,
  none, some, Text, codes, text_eq, is_empty, split, ◌==◌, ltb, if◌then◌else◌, Result, ok, err,
  ◌>>=◌, length, take, drop,
}
use diverge.Base.Decimal.{format_uint}
use diverge.Base.Hex.{hex_encode}
use diverge.Replay.Types.{Std}
use diverge.Replay.Media.{is_framed_proto_content_type}

-- binary.BigEndian.Uint32
abbrev pub uint32_be : ℕ → ℕ → ℕ → ℕ → ℕ
uint32_be a b c d = a * 16777216 + b * 65536 + c * 256 + d

-- `flags&0x01 != 0`, `flags&0x02 != 0` and `flags&0x80 != 0`.
abbrev pub is_compressed : ℕ → Bool
is_compressed flags = flags % 2 == 1

abbrev pub is_end_stream : ℕ → Bool
is_end_stream flags = flags / 2 % 2 == 1

abbrev pub is_web_trailer : ℕ → Bool
is_web_trailer flags = flags / 128 % 2 == 1

-- The flags and the length of the first frame, and what follows its header.
unfoldable pub frame_head : Text → Option (ℕ × ℕ × Text)
frame_head (flags ∷ a ∷ b ∷ c ∷ d ∷ rest) = some (flags, uint32_be a b c d, rest)
frame_head _ = none

-- `strings.TrimSuffix(line, "\r")`
unfoldable pub trim_carriage_return : Text → Text
trim_carriage_return [] = []
trim_carriage_return (c ∷ s) =
    let rest = trim_carriage_return s in if is_empty s && c == 13 then [] else c ∷ rest

-- `strings.SplitN(line, ":", 2)` where it has two parts.
unfoldable pub cut_colon : Text → Option (Text × Text)
cut_colon [] = none
cut_colon (c ∷ s) =
    let rest = cut_colon s in
    if c == b':' then some ([], s) else elim rest [ none ↦ none | some (k, v) ↦ some (c ∷ k, v) ]

-- The frame behind a header, if the buffer holds its payload.
unfoldable pub frame_behind : Text → Text → Option (ℕ × ℕ × Text) → Result Text (ℕ × Text × Text)
frame_behind noun buf none = err (
    codes "truncated "
    ++ noun
    ++ codes " frame header ("
    ++ format_uint (length buf)
    ++ codes " bytes remaining)")
frame_behind noun buf (some (flags, frame_len, rest)) =
    if ltb (length rest) frame_len
    then err (
        codes "truncated "
        ++ noun
        ++ codes " frame payload: expected "
        ++ format_uint frame_len
        ++ codes " bytes, got "
        ++ format_uint (length rest))
    else ok (flags, take frame_len rest, drop frame_len rest)

-- The next frame of a buffer: its flags, its payload and the rest. `noun` is the name of the
-- framing in the error messages.
unfoldable pub next_frame : Text → Text → Result Text (ℕ × Text × Text)
unfolding frame_head frame_behind
next_frame noun buf = frame_behind noun buf (frame_head buf)

-- One round of hasValidEnvelopeFrameSequence: what follows the frame, if the frame is accepted.
-- `first` holds where no frame was counted yet.
unfoldable pub accept_frame : Bool → Option (ℕ × ℕ × Text) → Option Text
accept_frame first none = none
accept_frame first (some (flags, frame_len, rest)) =
    if not (flags == 0) && (not (flags == 2) && not (flags == 128))
    then none
    else if ltb (length rest) frame_len
    then none
    else if first && (flags == 0 && (frame_len == 0 && not (is_empty rest)))
    then none
    else some (drop frame_len rest)

-- `return false`, or the next round.
unfoldable pub go_on : Option Text → (Text → Bool) → Bool
go_on none next = false
go_on (some rest) next = next rest

-- The loop of hasValidEnvelopeFrameSequence, and its count of frames at the end.
unfoldable pub valid_frames : ℕ → Bool → Text → Bool
unfolding frame_head accept_frame go_on
valid_frames zero first buf = not first
valid_frames (suc fuel) first [] = not first
valid_frames (suc fuel) first (c ∷ cs) =
    go_on (accept_frame first (frame_head (c ∷ cs))) (λ rest. valid_frames fuel false rest)

-- `int(binary.BigEndian.Uint32(raw[1:5])) > 0`
unfoldable pub is_positive_len : Option (ℕ × ℕ × Text) → Bool
is_positive_len none = false
is_positive_len (some (flags, frame_len, rest)) = ltb 0 frame_len

unfoldable pub has_valid_envelope_frame_sequence : Text → Bool
unfolding valid_frames frame_head is_positive_len
has_valid_envelope_frame_sequence raw =
    if ltb (length raw) 5
    then false
    else valid_frames (length raw) true raw && is_positive_len (frame_head raw)

module _ (std : Std) where
  open std use {trim_space, equal_fold, decode_end_stream}

  -- The status that a Connect end-of-stream message gives.
  unfoldable pub end_stream_status : Option (Text × Text) → Text
  end_stream_status none = codes "ok"
  end_stream_status (some (raw_code, raw_msg)) =
      let code = trim_space raw_code in
      let msg = trim_space raw_msg in
      let both = codes "connect-error:" ++ code ++ codes " (" ++ msg ++ codes ")" in
      if not (is_empty code) && not (is_empty msg)
      then both
      else if not (is_empty code)
      then codes "connect-error:" ++ code
      else if not (is_empty msg)
      then codes "connect-error:" ++ msg
      else codes "connect-error"

  -- The status of one line of gRPC-Web trailers, if it is one that is not 0.
  unfoldable pub web_status_line : Text → Option Text
  unfolding trim_carriage_return cut_colon
  web_status_line raw =
      let line = trim_space (trim_carriage_return raw) in
      elim (cut_colon line) [
        | none ↦ none
        | some (key, value) ↦
            let val = trim_space value in
            if equal_fold (trim_space key) (codes "grpc-status")
              && (not (is_empty val) && not (text_eq val (codes "0")))
            then some (codes "grpc-status:" ++ val)
            else none
      ]

  unfoldable pub web_status : List Text → Text
  unfolding web_status_line
  web_status [] = codes "ok"
  web_status (line ∷ lines) =
      let rest = web_status lines in elim (web_status_line line) [ none ↦ rest | some s ↦ s ]

  unfoldable pub parse_trailer_frame_status : ℕ → Text → Result Text Text
  unfolding end_stream_status web_status
  parse_trailer_frame_status flags payload =
      let trimmed = trim_space payload in
      let connect : Result Text Text = elim (decode_end_stream trimmed) [
        | err e ↦ err (codes "invalid Connect end-of-stream frame JSON: " ++ e)
        | ok end ↦ ok (end_stream_status end)
      ] in
      if is_empty trimmed
      then ok (codes "ok")
      else if is_end_stream flags
      then connect
      else if is_web_trailer flags
      then ok (web_status (split 10 trimmed))
      else ok (codes "ok")

  -- What one frame adds: a compressed one is refused, a trailer may change the status, and a
  -- message is written.
  unfoldable pub unwrap_frame :
      {A : Type 0} → (A → Text → A) → Text → ℕ → Text → A × Text → Result Text (A × Text)
  unfolding parse_trailer_frame_status
  unwrap_frame write noun flags payload (out, trailer_status) =
      if is_compressed flags
      then err (
          codes "compressed "
          ++ noun
          ++ codes " frame (flags=0x"
          ++ hex_encode (flags ∷ [])
          ++ codes ") cannot be decoded without decompression")
      else if is_end_stream flags || is_web_trailer flags
      then parse_trailer_frame_status flags payload
        >>= (λ status. ok (out, if text_eq status (codes "ok") then trailer_status else status))
      else ok (write out payload, trailer_status)

  -- The loop over the frames of a buffer; each frame takes five bytes or more.
  unfoldable pub unwrap_loop :
      {A : Type 0} → (A → Text → A) → Text → ℕ → Text → A × Text → Result Text (A × Text)
  unfolding next_frame unwrap_frame
  unwrap_loop write noun zero buf state = ok state
  unwrap_loop write noun (suc fuel) [] state = ok state
  unwrap_loop write noun (suc fuel) (c ∷ cs) state =
      next_frame noun (c ∷ cs) >>= (λ (flags, payload, rest).
        unwrap_frame write noun flags payload state
        >>= (λ state'. unwrap_loop write noun fuel rest state'))

  unfoldable pub unwrap_envelope_frames : Text → Text → Result Text (Text × Text)
  unfolding unwrap_loop has_valid_envelope_frame_sequence
  unwrap_envelope_frames content_type raw =
      let unwrapped =
        unwrap_loop (λ out payload. out ++ payload) (codes "gRPC/Connect") (length raw) raw
          ([], codes "ok") in
      if is_empty raw
      then ok ([], codes "ok")
      else if not
          (is_framed_proto_content_type std content_type || has_valid_envelope_frame_sequence raw)
      then ok (raw, codes "ok")
      else unwrapped

  -- UnwrapProtoEnvelope
  unfoldable pub unwrap_proto_envelope : Text → Text → Result Text Text
  unfolding unwrap_envelope_frames
  unwrap_proto_envelope content_type raw =
      unwrap_envelope_frames content_type raw >>= (λ (payload, status). ok payload)

  unfoldable pub unwrap_json_envelope_frames : Text → Result Text (List Text × Text)
  unfolding unwrap_loop
  unwrap_json_envelope_frames raw =
      unwrap_loop (λ frames payload. frames ++ payload ∷ []) (codes "Connect JSON") (length raw) raw
        ([], codes "ok")
