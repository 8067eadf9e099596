-- ===== src/Auth/Narrowing.antt =====
-- VerifyAndExtract of pkg/auth/macaroon.go: each caveat can only narrow the claims before it.
use diverge.Base.{
  List, [], ◌∷◌, Option, none, some, ◌≡◌, ◌≢◌, refl, ◌∙◌, ◌⊎◌, inl, inr, arith, Text, Bool, true,
  false, All, In, keep, subst, In-keep_inv, any_sound, All-intro, In-All,
}
use Prim.Native.Nat.{◌^◌}
use diverge.Base.Int.{ℤ, pos, ltb_ℤ, ◌≤ℤ◌, ◌+ℤ◌, +ℤ_parts, -ℤ_parts, wrap_int64, IsInt64}
use diverge.Auth.Types.{Go, Claims}
use diverge.Auth.Caveats.{is_positive_cost}
use diverge.Auth.Models.{allowed_model_pattern_narrows}
use diverge.Auth.Extract.{earlier, internal_sec, unix_time, narrow, is_nil, tool_covers}

-- `y` is `x`, or is covered by what `x` covers.
pub data Reaches (covers : Text → Text → Bool) (x : Text) : Text → Type 0 where
  here : Reaches covers x x
  next : {y z : Text} → Reaches covers x y → covers y z ≡ true → Reaches covers x z

Reaches-trans :
    {covers : Text → Text → Bool} {x y z : Text}
    → Reaches covers x y
    → Reaches covers y z
    → Reaches covers x z
Reaches-trans r here = r
Reaches-trans r (next s c) = next (Reaches-trans r s) c

-- Each new pattern goes back to an old one.
abbrev pub GoBackTo : (Text → Text → Bool) → List Text → List Text → Type 0
GoBackTo covers olds news = All (λ n. (o : Text) × In o olds × Reaches covers o n) news

-- A list of patterns stays, or narrows to a non-empty list; an empty one restricts nothing.
abbrev pub ListNarrows : (Text → Text → Bool) → List Text → List Text → Type 0
ListNarrows covers olds news = (olds ≡ []) ⊎ ((news ≢ []) × GoBackTo covers olds news)

-- A bound text stays as it is.
abbrev pub StaysBound : Text → Text → Type 0
StaysBound v v' = (v ≡ []) ⊎ (v' ≡ v)

-- An expiry stays or comes sooner, as Before orders times.
abbrev pub Sooner : Option ℤ → Option ℤ → Type 0
Sooner none b = Unit {0}
Sooner (some a) none = ⊥
Sooner (some a) (some b) = internal_sec b ≤ℤ internal_sec a

-- A limit of zero is none.
abbrev pub TokensNarrow : ℤ → ℤ → Type 0
TokensNarrow a b = (a ≡ pos 0) ⊎ ((ltb_ℤ (pos 0) b ≡ true) × (b ≤ℤ a))

module _ (covers : Text → Text → Bool) where
  pub ListNarrows-trans :
      (xs ys zs : List Text)
      → ListNarrows covers xs ys
      → ListNarrows covers ys zs
      → ListNarrows covers xs zs
  ListNarrows-trans xs ys zs (inl e) k = inl e
  ListNarrows-trans xs ys zs (inr (ne, h)) (inl e) = absurd (ne e)
  ListNarrows-trans xs ys zs (inr (ne, h)) (inr (ne', h')) = inr (
    ne',
    All-intro _ zs (λ z i.
        let (y, iy, r) = In-All _ z zs h' i in
        let (x, ix, q) = In-All _ y ys h iy in (x, ix, Reaches-trans q r)),
  )

  pub ListNarrows-refl : (xs : List Text) → ListNarrows covers xs xs
  ListNarrows-refl [] = inl refl
  ListNarrows-refl (x ∷ xs) = inr ((λ e. cc), All-intro _ (x ∷ xs) (λ z i. (z, i, here)))

  -- One caveat's patterns against those before it.
  pub ListNarrows-narrow :
      (olds news : List Text)
      → is_nil (narrow covers true olds news) ≡ false
      → ListNarrows covers olds (narrow covers true olds news)
  unfolding narrow
  ListNarrows-narrow olds news h = inr (
    (λ e. cc (let h' : is_nil [] ≡ false = subst (λ l. is_nil l ≡ false) e h in h')),
    All-intro _ (keep _ news) (λ z i.
        let (_, c) = In-keep_inv _ z news i in
        let (o, io, q) = any_sound (λ ex. covers ex z) olds c in (o, io, next here q)),
  )

pub Sooner-refl : (a : Option ℤ) → Sooner a a
Sooner-refl none = tt
Sooner-refl (some a) = omega arith

pub Sooner-trans : (a b c : Option ℤ) → Sooner a b → Sooner b c → Sooner a c
Sooner-trans none b c h k = tt
Sooner-trans (some a) none c h k = absurd h
Sooner-trans (some a) (some b) none h k = absurd k
Sooner-trans (some a) (some b) (some c) h k = omega arith

unix_time-some : (e : ℤ) → IsInt64 e → pos 0 ≤ℤ e → unix_time e ≡ some e
unfolding unix_time internal_sec wrap_int64
unix_time-some e w h =
    let since = e +ℤ pos 62135596800 in
    ground (
      arith,
      +ℤ_parts e (pos 62135596800),
      -ℤ_parts since (pos (2 ^ 64)),
      +ℤ_parts since (pos (2 ^ 64)),
    )

-- A time from 1970 on is not the zero time, so a new expiry is never taken for none.
pub Sooner-earlier : (a : Option ℤ) (e : ℤ) → IsInt64 e → pos 0 ≤ℤ e → Sooner a (earlier a e)
unfolding earlier
Sooner-earlier none e w h = tt
Sooner-earlier (some a) e w h = rw (unix_time-some e w h) (ground arith)

-- IEEE-754 comparison is transitive.
abbrev pub FloatLtIsTransitive : Go → Type 0
FloatLtIsTransitive go =
    (a b c : go.Float) → go.float_lt a b ≡ true → go.float_lt b c ≡ true → go.float_lt a c ≡ true

module _ (go : Go) where
  open go use {Float, zero_float, float_lt}

  -- A cost limit of zero is none; another one stays or falls, and stays positive.
  abbrev pub CostNarrows : Float → Float → Type 0
  CostNarrows a b =
      (a ≡ zero_float) ⊎ ((is_positive_cost go b ≡ true) × ((b ≡ a) ⊎ (float_lt b a ≡ true)))

  -- The claims `d` grant at most what the claims `c` grant.
  pub record ClaimsNarrow (c d : Claims Float) : Type 0 where
    pub task : d.task_id ≡ c.task_id
    pub namespace : StaysBound c.namespace d.namespace
    pub repo : StaysBound c.repo_url d.repo_url
    pub branch : StaysBound c.branch d.branch
    pub expiry : Sooner c.expires_at d.expires_at
    pub tokens : TokensNarrow c.max_tokens d.max_tokens
    pub cost : CostNarrows c.max_cost_usd d.max_cost_usd
    pub tools : ListNarrows (tool_covers go) c.allowed_tools d.allowed_tools
    pub models : ListNarrows (allowed_model_pattern_narrows go) c.allowed_models d.allowed_models

  CostNarrows-trans :
      (lt : FloatLtIsTransitive go) (a b c : Float)
      → (is_positive_cost go zero_float ≡ false)
      → CostNarrows a b
      → CostNarrows b c
      → CostNarrows a c
  CostNarrows-trans lt a b c z h k = ground (arith, lt c b a)

  pub ClaimsNarrow-trans :
      (lt : FloatLtIsTransitive go) (b c d : Claims Float)
      → (is_positive_cost go zero_float ≡ false)
      → ClaimsNarrow b c
      → ClaimsNarrow c d
      → ClaimsNarrow b d
  ClaimsNarrow-trans lt b c d z h k = record {
    task = k.task ∙ h.task;
    namespace = ground arith;
    repo = ground arith;
    branch = ground arith;
    expiry = Sooner-trans b.expires_at c.expires_at d.expires_at h.expiry k.expiry;
    tokens = ground arith;
    cost = CostNarrows-trans lt _ c.max_cost_usd _ z h.cost k.cost;
    tools = ListNarrows-trans _ _ c.allowed_tools _ h.tools k.tools;
    models = ListNarrows-trans _ _ c.allowed_models _ h.models k.models;
  }
