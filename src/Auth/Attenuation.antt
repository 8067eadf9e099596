-- ===== src/Auth/Attenuation.antt =====
-- Attenuated tokens under Verify of pkg/auth/macaroon.go.
use diverge.Base.{
  List, ◌++◌, ◌≡◌, sym, ◌↔◌, arith, Text, Bool, true, All, any, ok, All-append, All-append_left,
  All-append_right, any_sound, any_complete, In-append_left, subst,
}
use diverge.Base.Int.{ℤ}
use diverge.Auth.Types.{Go, Caveat, Claims, Macaroon}
use diverge.Auth.Mint.{attenuate}
use diverge.Auth.Verify.{verify_macaroon}
use diverge.Auth.Signatures.{IsSealed, HmacIsBytes, attenuate-IsSealed}
use diverge.Auth.Soundness.{Meets, is_task_caveat, is_namespace_caveat, verify_macaroon_iff}

any-append_left :
    (p : Caveat → Bool) (xs ys : List Caveat) → any p xs ≡ true → any p (xs ++ ys) ≡ true
any-append_left p xs ys h =
    let (c, i, q) = any_sound p xs h in any_complete p c (xs ++ ys) (In-append_left c xs ys i) q

module _ (go : Go) where
  open go use {Float}

  pub attenuate-eq-ok :
      (bytes : HmacIsBytes go) (root_key : Text) (mac mac' : Macaroon) (cs : List Caveat)
      → IsSealed go root_key mac
      → attenuate go mac cs ≡ ok mac'
      → IsSealed go root_key mac' × (mac'.caveat_seq ≡ mac.caveat_seq ++ cs)
  attenuate-eq-ok bytes root_key mac mac' cs sealed e =
      let (m, made, good, _, seq) = attenuate-IsSealed go bytes root_key mac cs sealed in
      let same : m ≡ mac' = cc in (rw (← same) good, rw (← same) seq)

  pub attenuate-token_id :
      (mac mac' : Macaroon) (cs : List Caveat)
      → attenuate go mac cs ≡ ok mac'
      → mac'.token_id ≡ mac.token_id
  unfolding attenuate
  attenuate-token_id mac mac' cs e = ground arith

  -- For a sealed token whose caveats name its task and namespace, where HMAC returns bytes: Verify
  -- accepts an attenuation of it exactly if it accepts the token and the request meets each of the
  -- new caveats.
  pub verify-attenuate_iff :
      (bytes : HmacIsBytes go) (root_key : Text) (mac mac' : Macaroon) (cs : List Caveat)
      (required : Claims Float) (now : ℤ)
      → IsSealed go root_key mac
      → any is_task_caveat mac.caveat_seq ≡ true
      → any is_namespace_caveat mac.caveat_seq ≡ true
      → attenuate go mac cs ≡ ok mac'
      → (verify_macaroon go root_key mac' required now ≡ ok tt)
        ↔ ((verify_macaroon go root_key mac required now ≡ ok tt) × All (Meets go required now) cs)
  verify-attenuate_iff bytes root_key mac mac' cs required now sealed task ns made =
      let (sealed', seq) = attenuate-eq-ok bytes root_key mac mac' cs sealed made in
      let old = verify_macaroon_iff go root_key mac required now in
      let new = verify_macaroon_iff go root_key mac' required now in
      let P = Meets go required now in
      (
        (λ h.
            let met = subst (All P) seq (new.0 h).1 in
            (
              old.1 (sealed, All-append_left P mac.caveat_seq cs met, task, ns),
              All-append_right P mac.caveat_seq cs met,
            )),
        (λ h. new.1 (
          sealed',
          subst (All P) (sym seq) (All-append P mac.caveat_seq cs (old.0 h.0).1 h.1),
          rw seq (any-append_left is_task_caveat mac.caveat_seq cs task),
          rw seq (any-append_left is_namespace_caveat mac.caveat_seq cs ns),
        )),
      )
