-- ===== src/Replay/Sequence.antt =====
-- Which bodies hasValidEnvelopeFrameSequence of pkg/replay/diff.go takes for a sequence of frames.
use diverge.Base.{
  ℕ, zero, suc, ◌≤◌, ◌<◌, Bool, false, true, not, ◌&&◌, ◌==◌, List, [], ◌∷◌, ◌++◌, some, none,
  Option, Text, ◌≡◌, ◌↔◌, ◌⊎◌, refl, sym, ap, subst, ◌∙◌, inl, inr, arith, ltb, ltb→lt, Bool-cases,
  Option-cases, length, length-append, drop, drop-append, All, All-append_right, is_empty,
}
use diverge.Base.Hex.{IsBytes}
use diverge.Replay.Frames.{
  frame_head, accept_frame, valid_frames, go_on, is_positive_len, has_valid_envelope_frame_sequence,
}
use diverge.Replay.Framing.{
  Frame, encode_frame, encode_frames, IsFrame, frame_head-encode, frame_head_sound,
}

-- A message frame or a trailer frame, uncompressed.
abbrev pub IsKnown : Frame → Type 0
IsKnown f = IsFrame f × ((f.flags ≡ 0) ⊎ ((f.flags ≡ 2) ⊎ (f.flags ≡ 128)))

accept_frame-encode :
    (first : Bool) (f : Frame) (rest : Text)
    → IsKnown f
    → (first ≡ false) ⊎ (0 < length f.payload)
    → accept_frame first (frame_head (encode_frame f ++ rest)) ≡ some rest
unfolding accept_frame
accept_frame-encode first f rest (small, known) starts =
    let len = length-append f.payload rest in
    let flags : not (f.flags == 0) && (not (f.flags == 2) && not (f.flags == 128)) ≡ false =
      ground arith in
    let fits : ltb (length (f.payload ++ rest)) (length f.payload) ≡ false = ground arith in
    let goes : first
          && (f.flags == 0 && (length f.payload == 0 && not (is_empty (f.payload ++ rest))))
        ≡ false =
      ground arith in
    ap (accept_frame first) (frame_head-encode f rest small)
    ∙ rw (flags, fits, goes, drop-append f.payload rest) refl

known_flags :
    (flags : ℕ)
    → not (flags == 0) && (not (flags == 2) && not (flags == 128)) ≡ false
    → (flags ≡ 0) ⊎ ((flags ≡ 2) ⊎ (flags ≡ 128))
known_flags flags h = ground arith

accepted :
    (first : Bool) (flags n : ℕ) (tail rest : Text)
    → accept_frame first (some (flags, n, tail)) ≡ some rest
    → ((flags ≡ 0) ⊎ ((flags ≡ 2) ⊎ (flags ≡ 128))) × (n ≤ length tail) × (drop n tail ≡ rest)
unfolding accept_frame
accepted first flags n tail rest h =
    elim (Bool-cases (not (flags == 0) && (not (flags == 2) && not (flags == 128)))) [
      | inl bad ↦ absurd (cc (rw bad at h))
      | inr known ↦ elim (Bool-cases (ltb (length tail) n)) [
        | inl short ↦ absurd (cc (rw (known, short) at h))
        | inr long ↦ elim (Bool-cases (first && (flags == 0 && (n == 0 && not (is_empty tail))))) [
          | inl odd ↦ absurd (cc (rw (known, long, odd) at h))
          | inr goes ↦
              let h' : some (drop n tail) ≡ some rest = rw (known, long, goes) at h in
              (known_flags flags known, ground arith, cc h')
        ]
      ]
    ]

accept_frame_sound :
    (first : Bool) (buf rest : Text)
    → IsBytes buf
    → accept_frame first (frame_head buf) ≡ some rest
    → (f : Frame) × IsKnown f × (buf ≡ encode_frame f ++ rest)
unfolding accept_frame
accept_frame_sound first buf rest b h = elim (Option-cases (frame_head buf)) [
  | inl e ↦ absurd (cc (sym (ap (accept_frame first) e) ∙ h))
  | inr ((flags, n, tail), e) ↦
      let h' : accept_frame first (some (flags, n, tail)) ≡ some rest =
        sym (ap (accept_frame first) e) ∙ h in
      let (known, long, same) = accepted first flags n tail rest h' in
      let (f, small, ef, _, whole) = frame_head_sound buf flags n tail b e long in
      (f, (small, rw ef known), whole ∙ ap (λ t. encode_frame f ++ t) same)
]

valid_frames_step :
    (fuel : ℕ) (first : Bool) (f : Frame) (fs : List Frame)
    → IsKnown f
    → (first ≡ false) ⊎ (0 < length f.payload)
    → valid_frames (suc fuel) first (encode_frames (f ∷ fs))
      ≡ valid_frames fuel false (encode_frames fs)
unfolding valid_frames go_on
valid_frames_step fuel first f fs known starts =
    ap (λ o. go_on o (λ rest. valid_frames fuel false rest))
      (accept_frame-encode first f (encode_frames fs) known starts)

-- Behind the first frame the loop accepts just the encodings of such frames.
valid_frames-encode :
    (fuel : ℕ) (fs : List Frame)
    → All IsKnown fs
    → length (encode_frames fs) ≤ fuel
    → valid_frames fuel false (encode_frames fs) ≡ true
unfolding valid_frames
valid_frames-encode zero fs h fits = refl
valid_frames-encode (suc fuel) [] h fits = refl
valid_frames-encode (suc fuel) (f ∷ fs) (known, hs) fits =
    let less : length (encode_frames fs) ≤ fuel =
      omega (arith, length-append f.payload (encode_frames fs)) in
    valid_frames_step fuel false f fs known (inl refl) ∙ valid_frames-encode fuel fs hs less

go_on_sound :
    (o : Option Text) (next : Text → Bool)
    → go_on o next ≡ true
    → (rest : Text) × (o ≡ some rest) × (next rest ≡ true)
unfolding go_on
go_on_sound none next h = cc
go_on_sound (some rest) next h = (rest, refl, h)

valid_frames_sound :
    (fuel : ℕ) (first : Bool) (buf : Text)
    → IsBytes buf
    → length buf ≤ fuel
    → valid_frames fuel first buf ≡ true
    → (fs : List Frame) × All IsKnown fs × (buf ≡ encode_frames fs)
unfolding valid_frames
valid_frames_sound zero first [] b fits h = ([], tt, refl)
valid_frames_sound zero first (c ∷ cs) b fits h = absurd (omega arith)
valid_frames_sound (suc fuel) first [] b fits h = ([], tt, refl)
valid_frames_sound (suc fuel) first (c ∷ cs) b fits h =
    let (rest, e, h') = go_on_sound (accept_frame first (frame_head (c ∷ cs))) _ h in
    let (f, known, whole) = accept_frame_sound first (c ∷ cs) rest b e in
    let shorter : length rest ≤ fuel =
      omega (arith, fits, ap length whole, length-append f.payload rest) in
    let (fs, hs, more) =
      valid_frames_sound fuel false rest
        (All-append_right _ (encode_frame f) rest (subst IsBytes whole b)) shorter h' in
    (f ∷ fs, (known, hs), whole ∙ ap (λ t. encode_frame f ++ t) more)

is_positive_len-encode :
    (f : Frame) (rest : Text)
    → IsFrame f
    → is_positive_len (frame_head (encode_frame f ++ rest)) ≡ ltb 0 (length f.payload)
unfolding is_positive_len
is_positive_len-encode f rest h = ap is_positive_len (frame_head-encode f rest h)

-- A sequence of known frames, of which the first has a payload.
abbrev pub IsSequence : Text → Type 0
IsSequence raw =
    (f : Frame) × (fs : List Frame) × All IsKnown (f ∷ fs)
    × (0 < length f.payload)
    × (raw ≡ encode_frames (f ∷ fs))

sequence_complete :
    (f : Frame) (fs : List Frame)
    → All IsKnown (f ∷ fs)
    → 0 < length f.payload
    → has_valid_envelope_frame_sequence (encode_frames (f ∷ fs)) ≡ true
unfolding has_valid_envelope_frame_sequence
sequence_complete f fs known starts =
    let raw = encode_frames (f ∷ fs) in
    let long : ltb (length raw) 5 ≡ false = ground arith in
    let n = suc (suc (suc (suc (length (f.payload ++ encode_frames fs))))) in
    let less : length (encode_frames fs) ≤ n =
      omega (arith, length-append f.payload (encode_frames fs)) in
    let valid : valid_frames (length raw) true raw ≡ true =
      valid_frames_step n true f fs known.0 (inr starts) ∙ valid_frames-encode n fs known.1 less in
    let positive = is_positive_len-encode f (encode_frames fs) known.0.0 in
    ground (arith, long, valid, positive)

framed_sound :
    (raw : Text) (fs : List Frame)
    → All IsKnown fs
    → raw ≡ encode_frames fs
    → is_positive_len (frame_head raw) ≡ true
    → IsSequence raw
unfolding is_positive_len frame_head
framed_sound raw [] known whole positive =
    absurd (cc (ap (λ r. is_positive_len (frame_head r)) (sym whole) ∙ positive))
framed_sound raw (f ∷ fs) known whole positive =
    let p =
      sym (is_positive_len-encode f (encode_frames fs) known.0.0)
      ∙ (ap (λ r. is_positive_len (frame_head r)) (sym whole) ∙ positive) in
    (f, fs, known, ltb→lt 0 (length f.payload) p, whole)

IsSequence-sound :
    (raw : Text) → IsBytes raw → has_valid_envelope_frame_sequence raw ≡ true → IsSequence raw
unfolding has_valid_envelope_frame_sequence is_positive_len frame_head
IsSequence-sound raw b h =
    let valid : valid_frames (length raw) true raw ≡ true = ground arith in
    let positive : is_positive_len (frame_head raw) ≡ true = ground arith in
    let (fs, known, whole) = valid_frames_sound (length raw) true raw b (omega arith) valid in
    framed_sound raw fs known whole positive

-- For a body of bytes: hasValidEnvelopeFrameSequence holds exactly if the body is the encoding of
-- one or more frames with the flags 0, 2 or 128, of which the first has a payload.
pub has_valid_envelope_frame_sequence_iff :
    (raw : Text) → IsBytes raw → (has_valid_envelope_frame_sequence raw ≡ true) ↔ IsSequence raw
has_valid_envelope_frame_sequence_iff raw b = (
  IsSequence-sound raw b,
  (λ h. let (f, fs, known, starts, whole) = h in rw whole (sequence_complete f fs known starts)),
)
