-- ===== src/Auth/Verify.antt =====
-- Verify of pkg/auth/macaroon.go.
use diverge.Base.{
  Bool, false, not, ◌||◌, List, [], ◌∷◌, Text, text_eq, is_empty, ok, ◌>>=◌, ◌>>◌, guard,
}
use diverge.Base.Hex.{hex_encode}
use diverge.Base.Int.{ℤ}
use diverge.Auth.Types.{Go, Caveat, Claims, Macaroon, AuthError, Checked, CaveatKey}
use diverge.Auth.Mint.{Provider, usable_key, compute_hmac, serialize_caveat_canonical}
use diverge.Auth.Caveats.{caveat_key, evaluate_caveat, parsed, holds}

-- The variables of the loop.
pub record Replay : Type 0 where
  pub sig : Text
  pub has_task_id : Bool
  pub has_namespace : Bool

-- The switch that notes the two required caveats.
unfoldable pub note_caveat : CaveatKey → Text → Replay → Replay
note_caveat CaveatKey.task_id value r = record r {
  has_task_id = r.has_task_id || not (is_empty value);
}
note_caveat CaveatKey.namespace value r = record r {
  has_namespace = r.has_namespace || not (is_empty value);
}
note_caveat _ value r = r

module _ (go : Go) where
  open go use {Float, unmarshal}

  -- The loop over the caveats.
  unfoldable pub replay : Claims Float → ℤ → Replay → List Caveat → Checked Replay
  replay required now r [] = ok r
  replay required now r (c ∷ cs) =
      evaluate_caveat go c required now
      >> replay required now
          (note_caveat (caveat_key c.key) c.value
            (record r { sig = compute_hmac go r.sig (serialize_caveat_canonical c) }))
          cs

  -- What Verify does with the decoded token.
  unfoldable pub verify_macaroon : Text → Macaroon → Claims Float → ℤ → Checked (Unit {0})
  verify_macaroon root_key mac required now = do
    r ←
        replay required now
          (record {
            sig = compute_hmac go root_key mac.token_id;
            has_task_id = false;
            has_namespace = false;
          })
          mac.caveat_seq
    guard (text_eq (hex_encode r.sig) mac.signature) AuthError.invalid_signature
    holds r.has_task_id
    holds r.has_namespace

  unfoldable pub verify : Provider → Text → Claims Float → ℤ → Checked (Unit {0})
  unfolding usable_key
  verify p raw required now = do
    root_key ← usable_key AuthError.invalid_signature p
    mac ← parsed (unmarshal raw)
    verify_macaroon root_key mac required now
