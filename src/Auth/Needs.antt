-- ===== src/Auth/Needs.antt =====
-- Lists of caveats, and when all of them hold (pkg/auth/macaroon.go).
use diverge.Base.{
  List, [], ◌∷◌, ◌++◌, Option, none, some, ◌≡◌, ◌≢◌, refl, ◌↔◌, ◌⊎◌, inl, inr, arith, Text, codes,
  Bool, true, false, not, All, all, ok, ◌>>◌, All-append, All-append_left, All-append_right,
  all_iff, text_eq, is_empty, is_empty_iff, ltb, length,
}
use diverge.Base.Int.{ℤ, ltb_ℤ, IsInt64, ◌≤ℤ◌}
use diverge.Auth.Types.{Caveat, CaveatKey}
use diverge.Auth.Mint.{when}
use diverge.Auth.Caveats.{holds, caveat_key}

pub keys :
    (caveat_key (codes "task_id") ≡ CaveatKey.task_id)
    × (caveat_key (codes "namespace") ≡ CaveatKey.namespace)
    × (caveat_key (codes "repo") ≡ CaveatKey.repo)
    × (caveat_key (codes "branch") ≡ CaveatKey.branch)
    × (caveat_key (codes "expires_at") ≡ CaveatKey.expires_at)
    × (caveat_key (codes "allowed_tools") ≡ CaveatKey.allowed_tools)
    × (caveat_key (codes "allowed_models") ≡ CaveatKey.allowed_models)
    × (caveat_key (codes "max_cost_usd") ≡ CaveatKey.max_cost_usd)
    × (caveat_key (codes "max_tokens") ≡ CaveatKey.max_tokens)
    × (caveat_key (codes "nonce") ≡ CaveatKey.nonce)
unfolding caveat_key text_eq
keys = (refl, refl, refl, refl, refl, refl, refl, refl, refl, refl)

-- The caveats of a list all hold exactly if a condition does.
pub record Needs (P : Caveat → Type 0) (cs : List Caveat) (Q : Type 0) : Type 0 where
  pub iff : All P cs ↔ Q

module _ (P : Caveat → Type 0) {Q : Type 0} where
  pub opt_iff :
      {Z : Type 0} (b : Bool) (c : Caveat)
      → (b ≡ false) ↔ Z
      → (b ≡ true → P c ↔ Q)
      → Needs P (when b c) (Z ⊎ Q)
  opt_iff true c z q = record {
    iff = (
      (λ h. inr ((q refl).0 h.0)),
      (λ h. elim h [ inl e ↦ absurd (cc (z.1 e)) | inr m ↦ ((q refl).1 m, tt) ]),
    );
  }
  opt_iff false c z q = record { iff = ((λ h. inl (z.0 refl)), (λ h. tt)) }

  pub cons_iff :
      {R : Type 0} {c : Caveat} {cs : List Caveat}
      → P c ↔ Q
      → Needs P cs R
      → Needs P (c ∷ cs) (Q × R)
  cons_iff q r = record { iff = ((λ h. (q.0 h.0, r.iff.0 h.1)), (λ h. (q.1 h.0, r.iff.1 h.1))) }

  pub append_iff :
      {R : Type 0} {xs ys : List Caveat} → Needs P xs Q → Needs P ys R → Needs P (xs ++ ys) (Q × R)
  append_iff {R} {xs} {ys} q r = record {
    iff = (
      (λ h. (q.iff.0 (All-append_left P xs ys h), r.iff.0 (All-append_right P xs ys h))),
      (λ h. All-append P xs ys (q.iff.1 h.0) (r.iff.1 h.1)),
    );
  }

  pub last_iff : {xs : List Caveat} {c : Caveat} → Needs P xs Q → P c → Needs P (xs ++ c ∷ []) Q
  last_iff {xs} {c} q met = record {
    iff = (
      (λ h. q.iff.0 (All-append_left P xs (c ∷ []) h)),
      (λ h. All-append P xs (c ∷ []) (q.iff.1 h) (met, tt)),
    );
  }

pub given_ne : (v : Text) → not (is_empty v) ≡ true → v ≢ []
given_ne v h = ground (arith, is_empty_iff v)

pub given_iff : (v : Text) → (not (is_empty v) ≡ false) ↔ (v ≡ [])
given_iff v = ground (arith, is_empty_iff v)

pub listed_iff : (l : List Text) → (ltb 0 (length l) ≡ false) ↔ (l ≡ [])
listed_iff [] = ground arith
listed_iff (x ∷ xs) = ((λ h. absurd (ground arith)), (λ h. cc))

-- A token's expiry is not past.
abbrev pub IsFresh : Option ℤ → ℤ → Type 0
IsFresh none now = Unit {0}
IsFresh (some e) now = now ≤ℤ e

abbrev pub ExpiryIsInt64 : Option ℤ → Type 0
ExpiryIsInt64 none = Unit {0}
ExpiryIsInt64 (some e) = IsInt64 e

pub not-ltb_ℤ_iff : (a b : ℤ) → (not (ltb_ℤ a b) ≡ true) ↔ (b ≤ℤ a)
not-ltb_ℤ_iff a b = ground arith

pub asked_covered :
    (p : Text → Bool) (l : List Text)
    → ((holds (ltb 0 (length l)) >> holds (all p l)) ≡ ok tt) ↔ ((l ≢ []) × All (λ x. p x ≡ true) l)
asked_covered p [] = ((λ h. cc), (λ h. absurd (h.0 refl)))
asked_covered p (x ∷ xs) = (
  (λ h. ((λ e. cc), (all_iff p (x ∷ xs)).0 (ground arith))),
  (λ h. ground (arith, (all_iff p (x ∷ xs)).1 h.1)),
)
