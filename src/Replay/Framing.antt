-- ===== src/Replay/Framing.antt =====
-- Buffers of pkg/replay/diff.go as encodings of lists of frames.
use diverge.Base.{
  ℕ, zero, suc, ◌/◌, ◌%◌, ◌≤◌, ◌<◌, false, List, [], ◌∷◌, ◌++◌, some, Text, ◌≡◌, inl, inr, refl,
  sym, ap, subst, ◌∙◌, arith, ltb, Bool-cases, Option-cases, Result, ok, ◌>>=◌, >>=-ext, >>=-ok,
  length, length-append, length-take, take, drop, take-append, drop-append, take-append-drop, All,
  All-append_right,
}
use diverge.Base.Hex.{IsBytes}
use diverge.Replay.Types.{Std}
use diverge.Replay.Frames.{
  uint32_be, frame_head, frame_behind, next_frame, unwrap_frame, unwrap_loop,
}

-- One frame, and its five bytes of header before its payload.
pub record Frame : Type 0 where
  pub flags : ℕ
  pub payload : Text

abbrev pub encode_frame : Frame → Text
encode_frame f =
    let n = length f.payload in
    f.flags ∷ n / 16777216 ∷ n / 65536 % 256 ∷ n / 256 % 256 ∷ n % 256 ∷ f.payload

abbrev pub encode_frames : List Frame → Text
encode_frames [] = []
encode_frames (f ∷ fs) = encode_frame f ++ encode_frames fs

-- The length fits in the header.
abbrev pub IsFrame : Frame → Type 0
IsFrame f = length f.payload < 4294967296

uint32_be_bytes :
    (n : ℕ)
    → n < 4294967296
    → uint32_be (n / 16777216) (n / 65536 % 256) (n / 256 % 256) (n % 256) ≡ n
uint32_be_bytes n h = omega arith

pub frame_head-encode :
    (f : Frame) (rest : Text)
    → IsFrame f
    → frame_head (encode_frame f ++ rest) ≡ some (f.flags, length f.payload, f.payload ++ rest)
unfolding frame_head
frame_head-encode f rest h =
    ap (λ n. some (f.flags, n, f.payload ++ rest)) (uint32_be_bytes (length f.payload) h)

module _ (g a b c d : ℕ) (tail : Text) (ha : a < 256) (hb : b < 256) (hc : c < 256)
    (hd : d < 256) where
  header_bytes :
      (n : ℕ)
      → uint32_be a b c d ≡ n
      → (n < 4294967296)
        × (n / 16777216 ≡ a)
        × (n / 65536 % 256 ≡ b)
        × (n / 256 % 256 ≡ c)
        × (n % 256 ≡ d)
  header_bytes n e = (omega arith, omega arith, omega arith, omega arith, omega arith)

  first_frame :
      (n : ℕ)
      → uint32_be a b c d ≡ n
      → n ≤ length tail
      → (f : Frame) × IsFrame f
        × (f.flags ≡ g)
        × (f.payload ≡ take n tail)
        × (g ∷ a ∷ b ∷ c ∷ d ∷ tail ≡ encode_frame f ++ drop n tail)
  first_frame n e fits =
      let f : Frame = record { flags = g; payload = take n tail } in
      let len : length (take n tail) ≡ n = omega (arith, length-take n tail) in
      let (small, ea, eb, ec, ed) = header_bytes n e in
      let whole = take-append-drop n tail in
      (f, omega (arith, len, small), refl, refl, rw (len, ea, eb, ec, ed, whole) refl)

-- Only bytes that begin with a frame have a head.
pub frame_head_sound :
    (buf : Text) (flags n : ℕ) (rest : Text)
    → IsBytes buf
    → frame_head buf ≡ some (flags, n, rest)
    → n ≤ length rest
    → (f : Frame) × IsFrame f
      × (f.flags ≡ flags)
      × (f.payload ≡ take n rest)
      × (buf ≡ encode_frame f ++ drop n rest)
unfolding frame_head
frame_head_sound [] flags n rest b h fits = cc
frame_head_sound (_ ∷ []) flags n rest b h fits = cc
frame_head_sound (_ ∷ _ ∷ []) flags n rest b h fits = cc
frame_head_sound (_ ∷ _ ∷ _ ∷ []) flags n rest b h fits = cc
frame_head_sound (_ ∷ _ ∷ _ ∷ _ ∷ []) flags n rest b h fits = cc
frame_head_sound (g ∷ a ∷ b ∷ c ∷ d ∷ tail) flags n rest (hg, (ha, (hb, (hc, (hd, _))))) h fits =
    let en : uint32_be a b c d ≡ n = cc h in
    let er : tail ≡ rest = cc h in
    let eg : g ≡ flags = cc h in
    let (f, small, ef, ep, whole) =
      first_frame g a b c d tail ha hb hc hd n en (subst (λ t. n ≤ length t) (sym er) fits) in
    (
      f,
      small,
      ef ∙ eg,
      subst (λ t. f.payload ≡ take n t) er ep,
      subst (λ t. g ∷ a ∷ b ∷ c ∷ d ∷ tail ≡ encode_frame f ++ drop n t) er whole,
    )

module _ (noun : Text) where
  next_frame-encode :
      (f : Frame) (rest : Text)
      → IsFrame f
      → next_frame noun (encode_frame f ++ rest) ≡ ok (f.flags, f.payload, rest)
  unfolding next_frame frame_behind
  next_frame-encode f rest h =
      let buf = encode_frame f ++ rest in
      let fits : ltb (length (f.payload ++ rest)) (length f.payload) ≡ false =
        let n = length-append f.payload rest in ground arith in
      ap (frame_behind noun buf) (frame_head-encode f rest h)
      ∙ rw (fits, take-append f.payload rest, drop-append f.payload rest) refl

  next_frame_sound :
      (buf : Text) (flags : ℕ) (payload rest : Text)
      → IsBytes buf
      → next_frame noun buf ≡ ok (flags, payload, rest)
      → (f : Frame) × IsFrame f
        × (f.flags ≡ flags)
        × (f.payload ≡ payload)
        × (buf ≡ encode_frame f ++ rest)
  unfolding next_frame frame_behind
  next_frame_sound buf flags payload rest b h = elim (Option-cases (frame_head buf)) [
    | inl e ↦ absurd (cc (sym (ap (frame_behind noun buf) e) ∙ h))
    | inr ((g, n, tail), e) ↦
        let h' : frame_behind noun buf (some (g, n, tail)) ≡ ok (flags, payload, rest) =
          sym (ap (frame_behind noun buf) e) ∙ h in
        elim (Bool-cases (ltb (length tail) n)) [
          | inl short ↦ absurd (cc (rw short at h'))
          | inr fits ↦
              let long : n ≤ length tail = ground arith in
              let h'' : ok (g, take n tail, drop n tail) ≡ ok (flags, payload, rest) =
                rw fits at h' in
              let (f, small, ef, ep, whole) = frame_head_sound buf g n tail b e long in
              let eg : g ≡ flags = cc h'' in
              let et : take n tail ≡ payload = cc h'' in
              let er : drop n tail ≡ rest = cc h'' in
              (f, small, ef ∙ eg, ep ∙ et, whole ∙ ap (λ t. encode_frame f ++ t) er)
        ]
  ]

-- What the frames of a list add, one after the other.
module _ (std : Std) {A : Type 0} (write : A → Text → A) (noun : Text) where
  unfoldable pub process : List Frame → A × Text → Result Text (A × Text)
  process [] state = ok state
  process (f ∷ fs) state = unwrap_frame std write noun f.flags f.payload state >>= process fs

  -- A loop over an encoding of frames with enough fuel handles just these frames.
  pub unwrap_loop-encode :
      (fuel : ℕ) (fs : List Frame) (state : A × Text)
      → All IsFrame fs
      → length (encode_frames fs) ≤ fuel
      → unwrap_loop std write noun fuel (encode_frames fs) state ≡ process fs state
  unfolding unwrap_loop process
  unwrap_loop-encode zero [] state h fits = refl
  unwrap_loop-encode (suc fuel) [] state h fits = refl
  unwrap_loop-encode zero (f ∷ fs) state h fits = absurd (omega arith)
  unwrap_loop-encode (suc fuel) (f ∷ fs) state (hf, hs) fits =
      let less : length (encode_frames fs) ≤ fuel =
        omega (arith, length-append f.payload (encode_frames fs)) in
      rw (next_frame-encode noun f (encode_frames fs) hf) (
        >>=-ext (unwrap_frame std write noun f.flags f.payload state) _ (process fs)
          (λ state' _. unwrap_loop-encode fuel fs state' hs less))

  -- A loop that succeeds has read an encoding of frames.
  pub unwrap_loop_sound :
      (fuel : ℕ) (buf : Text) (state result : A × Text)
      → IsBytes buf
      → length buf ≤ fuel
      → unwrap_loop std write noun fuel buf state ≡ ok result
      → (fs : List Frame) × All IsFrame fs
        × (buf ≡ encode_frames fs)
        × (process fs state ≡ ok result)
  unfolding unwrap_loop process
  unwrap_loop_sound zero [] state result b fits h = ([], tt, refl, h)
  unwrap_loop_sound zero (c ∷ cs) state result b fits h = absurd (omega arith)
  unwrap_loop_sound (suc fuel) [] state result b fits h = ([], tt, refl, h)
  unwrap_loop_sound (suc fuel) (c ∷ cs) state result b fits h =
      let ((flags, payload, rest), read, h') = >>=-ok (next_frame noun (c ∷ cs)) _ result h in
      let (state', one, h'') =
        >>=-ok (unwrap_frame std write noun flags payload state) _ result h' in
      let (f, small, ef, ep, whole) = next_frame_sound noun (c ∷ cs) flags payload rest b read in
      let shorter : length rest ≤ fuel =
        omega (arith, fits, ap length whole, length-append f.payload rest) in
      let (fs, small', whole', all) =
        unwrap_loop_sound fuel rest state' result
          (All-append_right _ (encode_frame f) rest (subst IsBytes whole b)) shorter h'' in
      (
        f ∷ fs,
        (small, small'),
        whole ∙ ap (λ t. encode_frame f ++ t) whole',
        ap (λ r. r >>= process fs)
              (ap (λ g. unwrap_frame std write noun g f.payload state) ef
                ∙ (ap (λ q. unwrap_frame std write noun flags q state) ep ∙ one))
            ∙ all,
      )
