-- ===== src/Auth/Signatures.antt =====
-- The signature chain of minted and attenuated macaroons (pkg/auth/macaroon.go).
use diverge.Base.{
  List, [], ◌∷◌, ◌++◌, append-nil, append_assoc, some, ◌≡◌, refl, sym, ◌∙◌, arith, Text, ok,
  is_empty, length, ltb, false,
}
use diverge.Base.Hex.{IsBytes, hex_encode, hex_decode, hex_decode-hex_encode}
use diverge.Auth.Types.{Go, Caveat, Claims, Macaroon}
use diverge.Auth.Mint.{
  compute_hmac, serialize_caveat_canonical, append_caveats, mint, attenuate, mint_caveats,
}

module _ (go : Go) where
  open go use {Float, hmac_sha256}

  -- The signature behind one more caveat.
  abbrev pub link : Text → Caveat → Text
  link sig c = compute_hmac go sig (serialize_caveat_canonical c)

  -- The signature behind a chain of caveats.
  unfoldable pub chain : Text → List Caveat → Text
  chain sig [] = sig
  chain sig (c ∷ cs) = chain (link sig c) cs

  pub chain-append :
      (sig : Text) (xs ys : List Caveat) → chain sig (xs ++ ys) ≡ chain (chain sig xs) ys
  unfolding chain
  chain-append sig [] ys = refl
  chain-append sig (c ∷ xs) ys = chain-append (link sig c) xs ys

  pub append_caveats-chain :
      (sig : Text) (seq cs : List Caveat) → append_caveats go sig seq cs ≡ (chain sig cs, seq ++ cs)
  unfolding append_caveats chain
  append_caveats-chain sig seq [] = λ i. (sig, sym (append-nil seq) i)
  append_caveats-chain sig seq (c ∷ cs) =
      append_caveats-chain (link sig c) (seq ++ c ∷ []) cs
      ∙ (λ i. (chain (link sig c) cs, append_assoc seq (c ∷ []) cs i))

  -- A token whose signature is that of its caveats under the root key.
  abbrev pub IsSealed : Text → Macaroon → Type 0
  IsSealed root_key mac =
      mac.signature ≡ hex_encode (chain (compute_hmac go root_key mac.token_id) mac.caveat_seq)

  -- HMAC-SHA256 returns bytes.
  abbrev pub HmacIsBytes : Type 0
  HmacIsBytes = (key message : Text) → IsBytes (hmac_sha256 key message)

  pub chain-IsBytes :
      (bytes : HmacIsBytes) (sig : Text) (cs : List Caveat) → IsBytes sig → IsBytes (chain sig cs)
  unfolding chain
  chain-IsBytes bytes sig [] h = h
  chain-IsBytes bytes sig (c ∷ cs) h = chain-IsBytes bytes (link sig c) cs (bytes _ _)

  pub mint-eq-ok :
      (root_key : Text) (claims : Claims Float) (nonce : Text) (mac : Macaroon)
      → mint go (some root_key) claims (some nonce) ≡ ok mac
      → (mac.token_id ≡ claims.task_id)
        × (mac.caveat_seq ≡ mint_caveats go claims nonce)
        × IsSealed root_key mac
        × (is_empty claims.task_id ≡ false)
        × (is_empty claims.namespace ≡ false)
        × (ltb (length root_key) 32 ≡ false)
  unfolding mint
  mint-eq-ok root_key claims nonce mac e = ground (
    arith,
    append_caveats-chain (compute_hmac go root_key claims.task_id) []
        (mint_caveats go claims nonce),
  )

  -- Attenuation of a sealed token always succeeds where HMAC returns bytes; the result is sealed
  -- under the same root key, keeps the token's id and caveats, and has the new caveats behind them.
  pub attenuate-IsSealed :
      (bytes : HmacIsBytes) (root_key : Text) (mac : Macaroon) (cs : List Caveat)
      → IsSealed root_key mac
      → (mac' : Macaroon) × (attenuate go mac cs ≡ ok mac')
        × IsSealed root_key mac'
        × (mac'.token_id ≡ mac.token_id)
        × (mac'.caveat_seq ≡ mac.caveat_seq ++ cs)
  unfolding attenuate
  attenuate-IsSealed bytes root_key mac cs e =
      let start = compute_hmac go root_key mac.token_id in
      let sig = chain start mac.caveat_seq in
      let decoded : hex_decode mac.signature ≡ some sig =
        rw e (hex_decode-hex_encode sig (chain-IsBytes bytes start mac.caveat_seq (bytes _ _))) in
      (
        record mac {
          caveat_seq = mac.caveat_seq ++ cs;
          signature = hex_encode (chain start (mac.caveat_seq ++ cs));
        },
        rw (decoded, attenuate)
            (rw (append_caveats-chain sig mac.caveat_seq cs, chain-append start mac.caveat_seq cs)),
        refl,
        refl,
        refl,
      )
