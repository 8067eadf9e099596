-- ===== src/Replay/Unwrap.antt =====
-- What the unwrapping functions of pkg/replay/diff.go return.
use diverge.Base.{
  ◌<◌, false, true, List, [], ◌∷◌, ◌++◌, map, append_assoc, append-nil, Text, codes, ◌≡◌, ◌↔◌, refl,
  sym, ap, ◌∙◌, inl, inr, arith, Bool-cases, ok, ◌>>=◌, length, All, is_empty, text_eq, text_eq_iff,
  if◌then◌else◌,
}
use diverge.Base.Hex.{IsBytes}
use diverge.Replay.Types.{Std}
use diverge.Replay.Media.{is_framed_proto_content_type}
use diverge.Replay.Frames.{
  parse_trailer_frame_status, unwrap_frame, unwrap_envelope_frames, unwrap_json_envelope_frames,
}
use diverge.Replay.Framing.{
  Frame, encode_frames, IsFrame, process, unwrap_loop-encode, unwrap_loop_sound,
}

-- An uncompressed frame that is no trailer.
abbrev pub message : Text → Frame
message payload = record { flags = 0; payload = payload }

abbrev pub concat : List Text → Text
concat [] = []
concat (p ∷ ps) = p ++ concat ps

abbrev Fits : Text → Type 0
Fits payload = length payload < 4294967296

-- A stream: its messages, and a Connect end-of-stream frame.
abbrev pub stream : List Text → Text → List Frame
stream ps trailer = map message ps ++ record { flags = 2; payload = trailer } ∷ []

-- The messages written one after the other.
abbrev written : {A : Type 0} → (A → Text → A) → A → List Text → A
written write out [] = out
written write out (p ∷ ps) = written write (write out p) ps

written_list :
    (out ps : List Text) → written (λ frames payload. frames ++ payload ∷ []) out ps ≡ out ++ ps
written_list out [] = sym (append-nil out)
written_list out (p ∷ ps) = written_list (out ++ p ∷ []) ps ∙ append_assoc out (p ∷ []) ps

written_bytes :
    (out : Text) (ps : List Text)
    → written (λ out payload. out ++ payload) out ps ≡ out ++ concat ps
written_bytes out [] = sym (append-nil out)
written_bytes out (p ∷ ps) = written_bytes (out ++ p) ps ∙ append_assoc out p (concat ps)

module _ (std : Std) where
  -- For a body of bytes: unwrapJSONEnvelopeFrames succeeds with a result exactly if the body is the
  -- encoding of a list of frames, of lengths that fit their headers, and handling these frames one
  -- after the other gives the result; any other body, such as a truncated one, is an error.
  pub unwrap_json_envelope_frames_iff :
      (raw : Text) (result : List Text × Text)
      → IsBytes raw
      → (unwrap_json_envelope_frames std raw ≡ ok result) ↔ (
          (fs : List Frame) × All IsFrame fs
          × (raw ≡ encode_frames fs)
          × (process std
                (λ frames payload. frames ++ payload ∷ [])
                (codes "Connect JSON")
                fs
                ([], codes "ok")
              ≡ ok result))
  unfolding unwrap_json_envelope_frames
  unwrap_json_envelope_frames_iff raw result b = (
    (λ h.
        unwrap_loop_sound std _ (codes "Connect JSON") (length raw) raw _ result b (omega arith) h),
    (λ h.
        let (fs, small, whole, all) = h in
        rw whole (
          unwrap_loop-encode std _ (codes "Connect JSON") (length (encode_frames fs)) fs _ small
            (omega arith)
          ∙ all)),
  )

  process-stream :
      {A : Type 0} (write : A → Text → A) (noun : Text) (ps : List Text) (out : A)
      (trailer status : Text)
      → parse_trailer_frame_status std 2 trailer ≡ ok status
      → process std write noun (stream ps trailer) (out, codes "ok")
        ≡ ok (written write out ps, status)
  unfolding process unwrap_frame
  process-stream write noun [] out trailer status h =
      ap
        (λ r.
          (r >>= (λ s. ok (out, if text_eq s (codes "ok") then codes "ok" else s)))
          >>= (λ st. ok st))
        h
      ∙ elim (Bool-cases (text_eq status (codes "ok"))) [
        | inl e ↦ rw e (ap (λ s. ok (out, s)) (sym ((text_eq_iff status (codes "ok")).0 e)))
        | inr e ↦ rw e refl
      ]
  process-stream write noun (p ∷ ps) out trailer status h =
      process-stream write noun ps (write out p) trailer status h

  stream-IsFrame :
      (ps : List Text) (trailer : Text)
      → All Fits ps
      → Fits trailer
      → All IsFrame (stream ps trailer)
  stream-IsFrame [] trailer h ht = (ht, tt)
  stream-IsFrame (p ∷ ps) trailer h ht = (h.0, stream-IsFrame ps trailer h.1 ht)

  stream-ne-nil :
      (ps : List Text) (trailer : Text) → is_empty (encode_frames (stream ps trailer)) ≡ false
  unfolding is_empty
  stream-ne-nil [] trailer = refl
  stream-ne-nil (p ∷ ps) trailer = refl

  -- Messages framed one by one, with an end-of-stream frame behind them that parses to a status,
  -- are unwrapped to the messages and that status by unwrapJSONEnvelopeFrames; their lengths fit
  -- the header.
  pub unwrap_json-stream :
      (ps : List Text) (trailer status : Text)
      → All Fits ps
      → Fits trailer
      → parse_trailer_frame_status std 2 trailer ≡ ok status
      → unwrap_json_envelope_frames std (encode_frames (stream ps trailer)) ≡ ok (ps, status)
  unfolding unwrap_json_envelope_frames
  unwrap_json-stream ps trailer status h ht parsed =
      unwrap_loop-encode std _ (codes "Connect JSON") (length (encode_frames (stream ps trailer)))
        (stream ps trailer) ([], codes "ok") (stream-IsFrame ps trailer h ht) (omega arith)
      ∙ (process-stream _ (codes "Connect JSON") ps [] trailer status parsed
          ∙ ap (λ l. ok (l, status)) (written_list [] ps))

  -- Under a content type with framed Protobuf, messages framed one by one, with an end-of-stream
  -- frame behind them that parses to a status, are unwrapped to their concatenation and that status
  -- by unwrapEnvelopeFrames; their lengths fit the header.
  pub unwrap_envelope-stream :
      (content_type : Text) (ps : List Text) (trailer status : Text)
      → is_framed_proto_content_type std content_type ≡ true
      → All Fits ps
      → Fits trailer
      → parse_trailer_frame_status std 2 trailer ≡ ok status
      → unwrap_envelope_frames std content_type (encode_frames (stream ps trailer))
        ≡ ok (concat ps, status)
  unfolding unwrap_envelope_frames
  unwrap_envelope-stream content_type ps trailer status framed h ht parsed =
      let all =
        unwrap_loop-encode std _ (codes "gRPC/Connect") (length (encode_frames (stream ps trailer)))
          (stream ps trailer) ([], codes "ok") (stream-IsFrame ps trailer h ht) (omega arith)
        ∙ (process-stream _ (codes "gRPC/Connect") ps [] trailer status parsed
            ∙ ap (λ l. ok (l, status)) (written_bytes [] ps)) in
      rw (stream-ne-nil ps trailer, framed) all
