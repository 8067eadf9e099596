-- ===== src/Auth/Mint.antt =====
-- Minting and attenuation of pkg/auth/macaroon.go: the HMAC chain over caveats.
use diverge.Base.{
  ℕ, Bool, not, List, [], ◌∷◌, ◌++◌, Option, none, some, Text, codes, is_empty, join, if◌then◌else◌,
  ltb, length, ok, err, ◌>>=◌, ◌>>◌, guard,
}
use diverge.Base.Hex.{hex_encode, hex_decode}
use diverge.Base.Decimal.{format_int}
use diverge.Base.Int.{ℤ, pos, ltb_ℤ}
use diverge.Auth.Types.{
  Go, Caveat, Claims, Macaroon, AuthError, Checked, op_equal, op_in, op_less_than, op_before,
  op_glob,
}

-- MacaroonProvider: the root key, or `none` for a nil provider.
abbrev pub Provider : Type 0
Provider = Option Text

abbrev pub min_macaroon_root_key_len : ℕ
min_macaroon_root_key_len = 32

-- `p == nil || len(p.rootKey) < MinMacaroonRootKeyLen` refuses the provider with the given error.
unfoldable pub usable_key : AuthError → Provider → Checked Text
usable_key e none = err e
usable_key e (some key) = if ltb (length key) min_macaroon_root_key_len then err e else ok key

-- serializeCaveatCanonical: key:op:value.
unfoldable pub serialize_caveat_canonical : Caveat → Text
serialize_caveat_canonical c = c.key ++ b':' ∷ (c.op ++ b':' ∷ c.value)

abbrev pub caveat : Text → Text → Text → Caveat
caveat key op value = record { key = key; op = op; value = value }

-- `if b { caveats = append(caveats, c) }`
abbrev pub when : Bool → Caveat → List Caveat
when b c = if b then c ∷ [] else []

unfoldable pub nonce_bytes : Option Text → Checked Text
nonce_bytes none = err AuthError.no_nonce
nonce_bytes (some b) = ok b

abbrev pub expiry_caveats : Option ℤ → List Caveat
expiry_caveats none = []
expiry_caveats (some s) = caveat (codes "expires_at") op_before (format_int s) ∷ []

module _ (go : Go) where
  open go use {
    Float, zero_float, one_cent, float_lt, format_two_decimals, format_shortest, hmac_sha256,
  }

  abbrev pub compute_hmac : Text → Text → Text
  compute_hmac key message = hmac_sha256 key message

  -- The value of the max_cost_usd caveat.
  unfoldable pub cost_value : Float → Text
  cost_value cost =
      if float_lt cost one_cent then format_shortest cost else format_two_decimals cost

  -- The caveats that Mint embeds, the nonce last.
  unfoldable pub mint_caveats : Claims Float → Text → List Caveat
  mint_caveats claims nonce =
      caveat (codes "task_id") op_equal claims.task_id
      ∷ caveat (codes "namespace") op_equal claims.namespace
      ∷ (when (not (is_empty claims.repo_url)) (caveat (codes "repo") op_equal claims.repo_url)
          ++ (when (not (is_empty claims.branch)) (caveat (codes "branch") op_equal claims.branch)
              ++ (expiry_caveats claims.expires_at
                  ++ (when (float_lt zero_float claims.max_cost_usd) (
                        caveat (codes "max_cost_usd") op_less_than (cost_value claims.max_cost_usd))
                      ++ (when (ltb_ℤ (pos 0) claims.max_tokens) (
                            caveat (codes "max_tokens") op_less_than (format_int claims.max_tokens))
                          ++ (when (ltb 0 (length claims.allowed_tools)) (
                                caveat (codes "allowed_tools") op_glob
                                  (join b',' claims.allowed_tools))
                              ++ (when (ltb 0 (length claims.allowed_models)) (
                                    caveat (codes "allowed_models") op_in
                                      (join b',' claims.allowed_models))
                                  ++ caveat (codes "nonce") op_equal (hex_encode nonce) ∷ [])))))))

  -- The loop of Mint and of Attenuate: the running signature and the caveats appended so far.
  unfoldable pub append_caveats : Text → List Caveat → List Caveat → Text × List Caveat
  append_caveats sig seq [] = (sig, seq)
  append_caveats sig seq (c ∷ cs) =
      append_caveats (compute_hmac sig (serialize_caveat_canonical c)) (seq ++ c ∷ []) cs

  -- Mint, with the 16 bytes of crypto/rand, or `none` where reading them fails.
  unfoldable pub mint : Provider → Claims Float → Option Text → Checked Macaroon
  unfolding usable_key nonce_bytes
  mint p claims nonce = do
    root_key ← usable_key AuthError.short_root_key p
    guard (not (is_empty claims.task_id)) AuthError.no_task_id
    guard (not (is_empty claims.namespace)) AuthError.no_namespace
    bytes ← nonce_bytes nonce
    let sealed =
        append_caveats (compute_hmac root_key claims.task_id) [] (mint_caveats claims bytes)
    ok (record {
      token_id = claims.task_id;
      location = codes "diverge-cluster";
      caveat_seq = sealed.1;
      signature = hex_encode sealed.0;
    })

  -- Attenuate; tokens are macaroons, so its type test always passes.
  unfoldable pub attenuate : Macaroon → List Caveat → Checked Macaroon
  attenuate mac caveats = elim (hex_decode mac.signature) [
    | none ↦ err AuthError.malformed_token
    | some sig ↦
        let sealed = append_caveats sig mac.caveat_seq caveats in
        ok (record mac { caveat_seq = sealed.1; signature = hex_encode sealed.0 })
  ]
