-- ===== src/Auth/Extracted.antt =====
-- The claims that VerifyAndExtract (pkg/auth/macaroon.go) returns, and those of an attenuated token.
use diverge.Base.{
  ℕ, suc, ◌+◌, List, [], ◌∷◌, ◌++◌, ◌≡◌, refl, sym, ap, ◌∙◌, ◌⊎◌, inl, inr, arith, Text, true,
  false, Result, ok, err, ◌>>=◌, Result-cases, subst, text_eq_iff, is_empty, length, Option-cases,
}
use diverge.Base.Int.{ℤ, pos, ◌≤ℤ◌}
use diverge.Base.Decimal.{parse_int}
use diverge.Base.Hex.{hex_encode}
use diverge.Auth.Types.{Go, Caveat, Claims, CaveatKey, Macaroon, AuthError}
use diverge.Auth.Caveats.{caveat_key, parsed, is_positive_cost}
use diverge.Auth.Mint.{compute_hmac, serialize_caveat_canonical}
use diverge.Auth.Extract.{
  Extracting, extract_key, extract_caveat, extract_all, extract_start, extract_macaroon, earlier,
  unix_time, tighten_cost, tighten_tokens,
}
use diverge.Auth.Signatures.{chain}
use diverge.Auth.Needs.{IsFresh}
use diverge.Auth.Narrowing.{ClaimsNarrow, ClaimsNarrow-trans, FloatLtIsTransitive}
use diverge.Auth.Extraction.{IsTracked, same_claims, extract_key-Good}

module _ (go : Go) where
  open go use {Float, zero_float, float_lt}

  abbrev pub linked : Extracting Float → Caveat → Extracting Float
  linked s c = record s { sig = compute_hmac go s.sig (serialize_caveat_canonical c) }

  caveat_Good :
      (i : ℕ) (c : Caveat) (now : ℤ) (p : pos 0 ≤ℤ now) (s t : Extracting Float)
      → IsTracked go s
      → extract_caveat go i s.claims.task_id c now s ≡ ok t
      → IsTracked go t × ClaimsNarrow go s.claims t.claims
  unfolding extract_caveat
  caveat_Good i c now p s t h e =
      extract_key-Good go (caveat_key c.key) i c.op c.value now p (linked s c) t
        (record { tokens = h.tokens; cost = h.cost; tools = h.tools; models = h.models }) e

  module _ (lt : FloatLtIsTransitive go) (z : is_positive_cost go zero_float ≡ false) where
    pub extract_all_Good :
        (i : ℕ) (cs : List Caveat) (now : ℤ) (p : pos 0 ≤ℤ now) (s t : Extracting Float)
        → IsTracked go s
        → extract_all go i s.claims.task_id cs now s ≡ ok t
        → IsTracked go t × ClaimsNarrow go s.claims t.claims
    unfolding extract_all extract_caveat
    extract_all_Good i [] now p s t h e =
        let same : s ≡ t = cc in
        (
          subst (IsTracked go) same h,
          subst (λ u. ClaimsNarrow go s.claims u.claims) same (same_claims go s h),
        )
    extract_all_Good i (c ∷ cs) now p s t h e =
        elim (Result-cases (extract_caveat go i s.claims.task_id c now s)) [
          | inl (m, em) ↦
              let (hm, narrower) = caveat_Good i c now p s m h em in
              let e' : extract_all go (suc i) s.claims.task_id cs now m ≡ ok t =
                rw (em, ◌>>=◌) at e in
              let (ht, rest) =
                extract_all_Good (suc i) cs now p m t hm (
                  subst (λ id. extract_all go (suc i) id cs now m ≡ ok t) (sym narrower.task) e') in
              (ht, ClaimsNarrow-trans go lt s.claims m.claims t.claims z narrower rest)
          | inr (x, ex) ↦ absurd (cc (let e' : err x ≡ ok t = rw (ex, ◌>>=◌) at e in e'))
        ]

  pub extract_all-append :
      (xs ys : List Caveat) (i : ℕ) (id : Text) (now : ℤ) (s : Extracting Float)
      → extract_all go i id (xs ++ ys) now s
        ≡ (extract_all go i id xs now s >>= extract_all go (length xs + i) id ys now)
  unfolding extract_all
  extract_all-append [] ys i id now s = ap (λ n. extract_all go n id ys now s) (omega arith)
  extract_all-append (c ∷ xs) ys i id now s = elim (Result-cases (extract_caveat go i id c now s)) [
    | inl (m, em) ↦
        rw (em, ◌>>=◌)
          (extract_all-append xs ys (suc i) id now m
            ∙ ap (λ n. extract_all go (suc i) id xs now m >>= extract_all go n id ys now)
                (omega arith))
    | inr (x, ex) ↦ rw (ex, ◌>>=◌)
  ]

  -- What holds of the variables at any point: the signature is that of the caveats read, the
  -- namespace flag is honest, and the expiry is not past.
  pub record IsSafe (now : ℤ) (s : Extracting Float) : Type 0 where
    pub namespace : (s.has_namespace ≡ false) ⊎ (is_empty s.claims.namespace ≡ false)
    pub expiry : IsFresh s.claims.expires_at now

  extract_key-IsSafe :
      (k : CaveatKey) (i : ℕ) (id op value : Text) (now : ℤ) (s t : Extracting Float)
      → IsSafe now s
      → extract_key go k i id op value now s ≡ ok t
      → IsSafe now t × (t.sig ≡ s.sig)
  unfolding extract_key parsed tighten_cost tighten_tokens earlier unix_time
  extract_key-IsSafe CaveatKey.expires_at i id op value now s t h e =
      elim (Option-cases (parse_int value)) [
        | inl none_e ↦ absurd (ground (arith, none_e))
        | inr (n, some_e) ↦ ground (arith, some_e)
      ]
  extract_key-IsSafe CaveatKey.max_cost_usd i id op value now s t h e =
      elim (Option-cases (go.parse_float value)) [
        | inl none_e ↦ absurd (ground (arith, none_e))
        | inr (n, some_e) ↦ ground (arith, some_e)
      ]
  extract_key-IsSafe CaveatKey.max_tokens i id op value now s t h e =
      elim (Option-cases (parse_int value)) [
        | inl none_e ↦ absurd (ground (arith, none_e))
        | inr (n, some_e) ↦ ground (arith, some_e)
      ]
  extract_key-IsSafe CaveatKey.namespace i id op value now s t h e = ground arith
  extract_key-IsSafe k i id op value now s t h e = ground arith

  -- A round leaves the task at the token's own, where it was that before.
  pub extract_key-task :
      (k : CaveatKey) (i : ℕ) (id op value : Text) (now : ℤ) (s t : Extracting Float)
      → s.claims.task_id ≡ id
      → extract_key go k i id op value now s ≡ ok t
      → t.claims.task_id ≡ id
  unfolding extract_key parsed tighten_cost tighten_tokens
  extract_key-task CaveatKey.task_id i id op value now s t same e =
      ground (arith, text_eq_iff value id)
  extract_key-task CaveatKey.expires_at i id op value now s t same e =
      elim (Option-cases (parse_int value)) [
        | inl none_e ↦ absurd (ground (arith, none_e))
        | inr (n, some_e) ↦ ground (arith, some_e)
      ]
  extract_key-task CaveatKey.max_cost_usd i id op value now s t same e =
      elim (Option-cases (go.parse_float value)) [
        | inl none_e ↦ absurd (ground (arith, none_e))
        | inr (n, some_e) ↦ ground (arith, some_e)
      ]
  extract_key-task CaveatKey.max_tokens i id op value now s t same e =
      elim (Option-cases (parse_int value)) [
        | inl none_e ↦ absurd (ground (arith, none_e))
        | inr (n, some_e) ↦ ground (arith, some_e)
      ]
  extract_key-task k i id op value now s t same e = ground arith

  pub extract_all-IsSafe :
      (i : ℕ) (id : Text) (cs : List Caveat) (now : ℤ) (s t : Extracting Float)
      → IsSafe now s
      → extract_all go i id cs now s ≡ ok t
      → IsSafe now t × (t.sig ≡ chain go s.sig cs)
  unfolding extract_all extract_caveat chain
  extract_all-IsSafe i id [] now s t h e =
      let same : s ≡ t = cc in (subst (IsSafe now) same h, ap (λ u. u.sig) (sym same))
  extract_all-IsSafe i id (c ∷ cs) now s t h e =
      elim (Result-cases (extract_caveat go i id c now s)) [
        | inl (m, em) ↦
            let (hm, sig) =
              extract_key-IsSafe (caveat_key c.key) i id c.op c.value now (linked s c) m
                (record { namespace = h.namespace; expiry = h.expiry }) em in
            let (ht, rest) = extract_all-IsSafe (suc i) id cs now m t hm (rw (em, ◌>>=◌) at e) in
            (ht, rest ∙ ap (λ g. chain go g cs) sig)
        | inr (x, ex) ↦ absurd (cc (let e' : err x ≡ ok t = rw (ex, ◌>>=◌) at e in e'))
      ]

  abbrev pub run : Text → Macaroon → ℤ → Result AuthError (Extracting Float)
  run root_key mac now =
      extract_all go 0 mac.token_id mac.caveat_seq now (extract_start go root_key mac.token_id)

  -- A successful extraction is that of the loop's last state.
  pub extract_macaroon_inv :
      (root_key : Text) (mac : Macaroon) (now : ℤ) (c : Claims Float)
      → extract_macaroon go root_key mac now ≡ ok c
      → (s : Extracting Float) × (run root_key mac now ≡ ok s)
        × (s.claims ≡ c)
        × (hex_encode s.sig ≡ mac.signature)
        × (s.has_namespace ≡ true)
  unfolding extract_macaroon
  extract_macaroon_inv root_key mac now c e = elim (Result-cases (run root_key mac now)) [
    | inl (s, es) ↦ (
      s,
      es,
      ground (arith, es),
      ground (arith, es, text_eq_iff (hex_encode s.sig) mac.signature),
      ground (arith, es),
    )
    | inr (x, ex) ↦ absurd (ground (arith, ex))
  ]

  pub start-IsSafe : (root_key id : Text) (now : ℤ) → IsSafe now (extract_start go root_key id)
  unfolding extract_start
  start-IsSafe root_key id now = record { namespace = inl refl; expiry = tt }

  pub start-IsTracked : (root_key id : Text) → IsTracked go (extract_start go root_key id)
  unfolding extract_start
  start-IsTracked root_key id = record {
    tokens = inr (refl, refl);
    cost = inr (refl, refl);
    tools = inr (refl, refl);
    models = inr (refl, refl);
  }

  extract_key_times :
      (k : CaveatKey) (i : ℕ) (id op value : Text) (now now' : ℤ) (s t t' : Extracting Float)
      → extract_key go k i id op value now s ≡ ok t
      → extract_key go k i id op value now' s ≡ ok t'
      → t ≡ t'
  unfolding extract_key parsed
  extract_key_times CaveatKey.expires_at i id op value now now' s t t' e e' =
      elim (Option-cases (parse_int value)) [
        | inl none_e ↦ absurd (ground (arith, none_e))
        | inr (n, some_e) ↦ ground (arith, some_e)
      ]
  extract_key_times k i id op value now now' s t t' e e' = cc

  -- The claims do not depend on the time at which they are extracted.
  pub extract_all_times :
      (i : ℕ) (id : Text) (cs : List Caveat) (now now' : ℤ) (s t t' : Extracting Float)
      → extract_all go i id cs now s ≡ ok t
      → extract_all go i id cs now' s ≡ ok t'
      → t ≡ t'
  unfolding extract_all extract_caveat
  extract_all_times i id [] now now' s t t' e e' = cc
  extract_all_times i id (c ∷ cs) now now' s t t' e e' =
      elim (Result-cases (extract_caveat go i id c now s)) [
        | inr (x, ex) ↦ absurd (cc (let f : err x ≡ ok t = rw (ex, ◌>>=◌) at e in f))
        | inl (m, em) ↦ elim (Result-cases (extract_caveat go i id c now' s)) [
          | inr (x, ex) ↦ absurd (cc (let f : err x ≡ ok t' = rw (ex, ◌>>=◌) at e' in f))
          | inl (m', em') ↦
              let same : m ≡ m' =
                extract_key_times (caveat_key c.key) i id c.op c.value now now' (linked s c) m m' em
                  em' in
              extract_all_times (suc i) id cs now now' m t t' (rw (em, ◌>>=◌) at e) (
                subst (λ u. extract_all go (suc i) id cs now' u ≡ ok t') (sym same)
                  (rw (em', ◌>>=◌) at e'))
        ]
      ]
