-- ===== src/Auth/Soundness.antt =====
-- What Verify of pkg/auth/macaroon.go decides.
use diverge.Base.{
  List, [], ◌∷◌, ◌≡◌, ap, ◌∙◌, ◌↔◌, inl, inr, arith, Text, Bool, true, false, not, ◌&&◌, ◌||◌,
  text_eq_iff, text_eq_refl, is_empty, All, any, ok, err, ◌>>=◌, Result-cases,
}
use diverge.Base.Hex.{hex_encode}
use diverge.Base.Int.{ℤ}
use diverge.Auth.Types.{Go, Caveat, Claims, Macaroon, CaveatKey}
use diverge.Auth.Mint.{compute_hmac}
use diverge.Auth.Caveats.{caveat_key, evaluate_caveat}
use diverge.Auth.Verify.{Replay, note_caveat, replay, verify_macaroon}
use diverge.Auth.Signatures.{chain, link, IsSealed}

names_task : CaveatKey → Bool
names_task CaveatKey.task_id = true
names_task _ = false

names_namespace : CaveatKey → Bool
names_namespace CaveatKey.namespace = true
names_namespace _ = false

-- A non-empty caveat on the task, and one on the namespace.
unfoldable pub is_task_caveat : Caveat → Bool
unfolding names_task
is_task_caveat c = names_task (caveat_key c.key) && not (is_empty c.value)

unfoldable pub is_namespace_caveat : Caveat → Bool
unfolding names_namespace
is_namespace_caveat c = names_namespace (caveat_key c.key) && not (is_empty c.value)

note_caveat-flags :
    (k : CaveatKey) (value : Text) (r : Replay)
    → ((note_caveat k value r).has_task_id
        ≡ (r.has_task_id || (names_task k && not (is_empty value))))
      × ((note_caveat k value r).has_namespace
          ≡ (r.has_namespace || (names_namespace k && not (is_empty value))))
      × ((note_caveat k value r).sig ≡ r.sig)
unfolding note_caveat names_task names_namespace
note_caveat-flags CaveatKey.task_id value r = ground arith
note_caveat-flags CaveatKey.namespace value r = ground arith
note_caveat-flags _ value r = ground arith

module _ (go : Go) where
  open go use {Float}

  module _ (required : Claims Float) (now : ℤ) where
    -- A caveat that the request meets at the time `now`.
    abbrev pub Meets : Caveat → Type 0
    Meets c = evaluate_caveat go c required now ≡ ok tt

    after_replay : Replay → List Caveat → Replay
    after_replay r cs = record {
      sig = chain go r.sig cs;
      has_task_id = r.has_task_id || any is_task_caveat cs;
      has_namespace = r.has_namespace || any is_namespace_caveat cs;
    }

    abbrev next_replay : Replay → Caveat → Replay
    next_replay r c = note_caveat (caveat_key c.key) c.value (record r { sig = link go r.sig c })

    after_replay-cons :
        (r : Replay) (c : Caveat) (cs : List Caveat)
        → after_replay (next_replay r c) cs ≡ after_replay r (c ∷ cs)
    unfolding after_replay chain any is_task_caveat is_namespace_caveat
    after_replay-cons r c cs =
        let flags =
          note_caveat-flags (caveat_key c.key) c.value (record r { sig = link go r.sig c }) in
        ground (arith, flags)

    replay_complete :
        (r : Replay) (cs : List Caveat)
        → All Meets cs
        → replay go required now r cs ≡ ok (after_replay r cs)
    unfolding replay
    replay_complete r [] h = unfold after_replay chain any in ground arith
    replay_complete r (c ∷ cs) h =
        rw (h.0, ◌>>=◌)
          (replay_complete (next_replay r c) cs h.1 ∙ ap ok (after_replay-cons r c cs))

    replay_sound :
        (r r' : Replay) (cs : List Caveat) → replay go required now r cs ≡ ok r' → All Meets cs
    unfolding replay
    replay_sound r r' [] h = tt
    replay_sound r r' (c ∷ cs) h = elim (Result-cases (evaluate_caveat go c required now)) [
      | inl (tt, e) ↦ (e, replay_sound (next_replay r c) r' cs (rw (e, ◌>>=◌) at h))
      | inr (x, e) ↦ absurd (cc (let h' : err x ≡ ok r' = rw (e, ◌>>=◌) at h in h'))
    ]

  -- What makes a decoded token good for a request: its signature is that of its caveats under the
  -- root key, the request meets every caveat, and the caveats name a task and a namespace.
  abbrev pub IsGood : Text → Macaroon → Claims Float → ℤ → Type 0
  IsGood root_key mac required now =
      IsSealed go root_key mac
      × All (Meets required now) mac.caveat_seq
      × (any is_task_caveat mac.caveat_seq ≡ true)
      × (any is_namespace_caveat mac.caveat_seq ≡ true)

  module _ (root_key : Text) (mac : Macaroon) (required : Claims Float) (now : ℤ) where
    abbrev start : Replay
    start = record {
      sig = compute_hmac go root_key mac.token_id;
      has_task_id = false;
      has_namespace = false;
    }

    verify_complete :
        IsGood root_key mac required now → verify_macaroon go root_key mac required now ≡ ok tt
    unfolding verify_macaroon after_replay
    verify_complete (sealed, met, task, ns) =
        rw (replay_complete required now start mac.caveat_seq met, ◌>>=◌)
          (rw (sealed, task, ns, text_eq_refl))

    verify_sound :
        verify_macaroon go root_key mac required now ≡ ok tt → IsGood root_key mac required now
    unfolding verify_macaroon after_replay
    verify_sound h = elim (Result-cases (replay go required now start mac.caveat_seq)) [
      | inl (r, e) ↦
          let met = replay_sound required now start r mac.caveat_seq e in
          let e' = replay_complete required now start mac.caveat_seq met in
          let sig = chain go (compute_hmac go root_key mac.token_id) mac.caveat_seq in
          ground (arith, met, e', text_eq_iff (hex_encode sig) mac.signature)
      | inr (x, e) ↦ absurd (cc (let h' : err x ≡ ok tt = rw (e, ◌>>=◌) at h in h'))
    ]

  -- Verify accepts a decoded token at a time exactly if the token's signature is that of its
  -- caveats under the root key, the request meets every caveat, and some non-empty caveat names a
  -- task and one a namespace.
  pub verify_macaroon_iff :
      (root_key : Text) (mac : Macaroon) (required : Claims Float) (now : ℤ)
      → (verify_macaroon go root_key mac required now ≡ ok tt) ↔ IsGood root_key mac required now
  verify_macaroon_iff root_key mac required now =
      (verify_sound root_key mac required now, verify_complete root_key mac required now)
