-- ===== src/Auth/Effective.antt =====
-- What VerifyAndExtract (pkg/auth/macaroon.go) guarantees of the claims that it returns.
use diverge.Base.{
  ℕ, suc, ◌+◌, List, [], ◌∷◌, ◌++◌, ◌≡◌, ◌≢◌, refl, sym, ap, ◌∙◌, inl, inr, arith, Text, true,
  false, ok, err, ◌>>=◌, Result-cases, subst, length, is_empty_iff,
}
use diverge.Base.Int.{ℤ, pos, ◌≤ℤ◌}
use diverge.Base.Hex.{hex_encode}
use diverge.Auth.Types.{Go, Caveat, Claims, Macaroon}
use diverge.Auth.Caveats.{caveat_key, is_positive_cost}
use diverge.Auth.Mint.{attenuate}
use diverge.Auth.Extract.{Extracting, extract_caveat, extract_all, extract_start, extract_macaroon}
use diverge.Auth.Signatures.{IsSealed, HmacIsBytes}
use diverge.Auth.Attenuation.{attenuate-eq-ok, attenuate-token_id}
use diverge.Auth.Needs.{IsFresh}
use diverge.Auth.Narrowing.{ClaimsNarrow, FloatLtIsTransitive}
use diverge.Auth.Extraction.{IsTracked}
use diverge.Auth.Extracted.{
  IsSafe, linked, extract_key-task, extract_all_Good, extract_all_times, extract_all-append,
  extract_all-IsSafe, extract_macaroon_inv, start-IsSafe, start-IsTracked,
}

module _ (go : Go) where
  open go use {Float, zero_float}

  extract_all-task :
      (i : ℕ) (id : Text) (cs : List Caveat) (now : ℤ) (s t : Extracting Float)
      → s.claims.task_id ≡ id
      → extract_all go i id cs now s ≡ ok t
      → t.claims.task_id ≡ id
  unfolding extract_all extract_caveat
  extract_all-task i id [] now s t same e =
      let st : s ≡ t = cc in cc (ap (λ (u : Extracting Float). u.claims.task_id) st)
  extract_all-task i id (c ∷ cs) now s t same e =
      elim (Result-cases (extract_caveat go i id c now s)) [
        | inl (m, em) ↦
            let kept =
              extract_key-task go (caveat_key c.key) i id c.op c.value now (linked go s c) m same
                em in
            extract_all-task (suc i) id cs now m t kept (rw (em, ◌>>=◌) at e)
        | inr (x, ex) ↦ absurd (cc (let f : err x ≡ ok t = rw (ex, ◌>>=◌) at e in f))
      ]

  -- Claims come only from a token whose signature is that of its caveats under the root key; they
  -- are for the token's own task, name a namespace, and the Unix seconds of their expiry are not
  -- past.
  pub extract_macaroon_sound :
      (root_key : Text) (mac : Macaroon) (now : ℤ) (c : Claims Float)
      → extract_macaroon go root_key mac now ≡ ok c
      → IsSealed go root_key mac
        × (c.task_id ≡ mac.token_id)
        × (c.namespace ≢ [])
        × IsFresh c.expires_at now
  extract_macaroon_sound root_key mac now c e =
      let (s, es, sc, sig, ns) = extract_macaroon_inv go root_key mac now c e in
      let start = extract_start go root_key mac.token_id in
      let (h, chained) =
        extract_all-IsSafe go 0 mac.token_id mac.caveat_seq now start s
          (start-IsSafe go root_key mac.token_id now) es in
      let task =
        extract_all-task 0 mac.token_id mac.caveat_seq now start s (unfold extract_start in refl)
          es in
      (
        sym sig ∙ ap hex_encode (chained ∙ unfold extract_start in refl),
        ap (λ (u : Claims Float). u.task_id) (sym sc) ∙ task,
        subst (λ (u : Claims Float). u.namespace ≢ []) sc (named s h ns),
        subst (λ (u : Claims Float). IsFresh u.expires_at now) sc h.expiry,
      )
    where
      named :
          (s : Extracting Float)
          → IsSafe go now s
          → s.has_namespace ≡ true
          → s.claims.namespace ≢ []
      named s h ns z = ground (arith, is_empty_iff s.claims.namespace, h.namespace)

  extended_narrows :
      (lt : FloatLtIsTransitive go) (z : is_positive_cost go zero_float ≡ false) (id : Text)
      (xs ys : List Caveat) (now now' : ℤ) (p : pos 0 ≤ℤ now') (start s s' : Extracting Float)
      → IsTracked go start
      → start.claims.task_id ≡ id
      → extract_all go 0 id xs now start ≡ ok s
      → extract_all go 0 id (xs ++ ys) now' start ≡ ok s'
      → ClaimsNarrow go s.claims s'.claims
  extended_narrows lt z id xs ys now now' p start s s' h same e e' =
      let split = extract_all-append go xs ys 0 id now' start in
      elim (Result-cases (extract_all go 0 id xs now' start)) [
        | inl (m, em) ↦
            let task = extract_all-task 0 id xs now' start m same em in
            let em' = subst (λ j. extract_all go 0 j xs now' start ≡ ok m) (sym same) em in
            let (hm, _) = extract_all_Good go lt z 0 xs now' p start m h em' in
            let rest : extract_all go (length xs + 0) id ys now' m ≡ ok s' =
              rw (em, ◌>>=◌) at (sym split ∙ e') in
            let rest' =
              subst (λ j. extract_all go (length xs + 0) j ys now' m ≡ ok s') (sym task) rest in
            let (_, narrower) = extract_all_Good go lt z (length xs + 0) ys now' p m s' hm rest' in
            let times = extract_all_times go 0 id xs now' now start m s em e in
            subst (λ (u : Extracting Float). ClaimsNarrow go u.claims s'.claims) times narrower
        | inr (x, ex) ↦
            absurd (cc (let f : err x ≡ ok s' = rw (ex, ◌>>=◌) at (sym split ∙ e') in f))
      ]

  -- If a token and an attenuation of it both yield claims, at any two times, the second from 1970
  -- on, then the claims of the attenuation narrow those of the token: the same task, bindings that
  -- stay, an expiry no later in the order of Before, limits no higher, and patterns that are
  -- covered. The order of costs is transitive, zero is no positive cost, and HMAC returns bytes.
  pub extract-attenuate_narrows :
      (lt : FloatLtIsTransitive go) (z : is_positive_cost go zero_float ≡ false)
      (bytes : HmacIsBytes go) (root_key : Text) (mac mac' : Macaroon) (cs : List Caveat)
      (now now' : ℤ) (p : pos 0 ≤ℤ now') (c c' : Claims Float)
      → attenuate go mac cs ≡ ok mac'
      → extract_macaroon go root_key mac now ≡ ok c
      → extract_macaroon go root_key mac' now' ≡ ok c'
      → ClaimsNarrow go c c'
  extract-attenuate_narrows lt z bytes root_key mac mac' cs now now' p c c' made e e' =
      let (s, es, sc, _, _) = extract_macaroon_inv go root_key mac now c e in
      let (s', es', sc', _, _) = extract_macaroon_inv go root_key mac' now' c' e' in
      let (sealed, _, _, _) = extract_macaroon_sound root_key mac now c e in
      let (_, seq) = attenuate-eq-ok go bytes root_key mac mac' cs sealed made in
      let id = attenuate-token_id go mac mac' cs made in
      let start = extract_start go root_key mac.token_id in
      let both : extract_all go 0 mac.token_id (mac.caveat_seq ++ cs) now' start ≡ ok s' =
        subst (λ (l : List Caveat). extract_all go 0 mac.token_id l now' start ≡ ok s') seq
          (subst
            (λ (j : Text).
              extract_all go 0 j mac'.caveat_seq now' (extract_start go root_key j) ≡ ok s')
            id es') in
      let narrower =
        extended_narrows lt z mac.token_id mac.caveat_seq cs now now' p start s s'
          (start-IsTracked go root_key mac.token_id) (unfold extract_start in refl) es both in
      subst (ClaimsNarrow go c) sc' (subst (λ d. ClaimsNarrow go d s'.claims) sc narrower)
