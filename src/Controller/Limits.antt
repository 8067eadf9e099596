-- ===== src/Controller/Limits.antt =====
-- The limits of a namespace and the choice of victims: internal/controller/environment_quota.go.
use diverge.Base.{
  ℕ, ◌+◌, Bool, true, false, not, ◌&&◌, ◌||◌, ◌==◌, List, [], ◌∷◌, ◌++◌, Option, none, some, Text,
  codes, text_eq, is_empty, keep, if◌then◌else◌, ltb, length, Result, ok, err,
}
use diverge.Base.Decimal.{format_uint, parse_int}
use diverge.Base.Int.{ℤ, pos, negsuc}
use diverge.Topology.Sets.{text_lt, sort}
use diverge.Controller.Types.{
  EnvironmentPhase, failed, terminating, expired, Environment, Annotations, annotation, Cluster,
}

abbrev pub hibernated : Text
hibernated = codes "divergedev.com/hibernated"

-- The limits and the policy that the annotations of a namespace set; 0 and `none` set no limit.
pub record Limits (F : Type 0) : Type 0 where
  pub max_active : ℕ
  pub max_cnpg : ℕ
  pub max_hourly_cost : Option F
  pub rejects : Bool

-- The words of usesCNPGCluster.
unfoldable pub is_cnpg_mode : Text → Bool
is_cnpg_mode mode =
    text_eq mode (codes "cnpg") || text_eq mode (codes "fresh") || text_eq mode (codes "snapshot")

-- `if v, err := strconv.Atoi(raw); err == nil && v > 0`
unfoldable pub positive_int : Option ℤ → ℕ
positive_int none = 0
positive_int (some (negsuc n)) = 0
positive_int (some (pos n)) = n

unfoldable pub is_finished : EnvironmentPhase → Bool
is_finished failed = true
is_finished expired = true
is_finished terminating = true
is_finished _ = false

module _ {F : Type 0} (cluster : Cluster F) where
  open cluster use {
    trim_space, to_lower, trim_dollar, parse_time, parse_float, is_positive, zero_cost, add_cost,
    exceeds_cost, format_cost, hourly_cost,
  }

  unfoldable pub uses_cnpg_cluster : Environment → Bool
  unfolding is_cnpg_mode annotation
  uses_cnpg_cluster env =
      is_cnpg_mode (to_lower (trim_space env.database_mode))
      || is_cnpg_mode (
          to_lower
            (trim_space (annotation (codes "divergedev.com/database-provider") env.annotations)))
      || is_cnpg_mode (to_lower (trim_space env.database_provider))

  -- The time without the annotation: the creation timestamp, or else the status.
  unfoldable pub creation_time : Environment → ℕ
  creation_time env =
      if not (env.creation_timestamp == 0)
      then env.creation_timestamp
      else elim env.created_at [ none ↦ 0 | some t ↦ t ]

  unfoldable pub environment_lru_timestamp : Environment → ℕ
  unfolding creation_time annotation
  environment_lru_timestamp env =
      let raw = trim_space (annotation (codes "divergedev.com/last-traffic-at") env.annotations) in
      if is_empty raw
      then creation_time env
      else elim (parse_time raw) [ none ↦ creation_time env | some t ↦ t ]

  -- The order of the candidates: least recently used first, then by name.
  unfoldable pub is_older : Environment → Environment → Bool
  unfolding environment_lru_timestamp
  is_older a b =
      let ti = environment_lru_timestamp a in
      let tj = environment_lru_timestamp b in
      if not (ti == tj) then ltb ti tj else text_lt a.name b.name

  unfoldable pub positive_cost : Option F → Option F
  positive_cost none = none
  positive_cost (some v) = if is_positive v then some v else none

  unfoldable pub read_limits : Annotations → Limits F
  unfolding annotation positive_int positive_cost
  read_limits annotations =
      let raw = λ (key : Text). trim_space (annotation key annotations) in
      let cost = trim_dollar (raw (codes "divergedev.com/max-hourly-cost-usd")) in
      record {
        max_active =
            positive_int (parse_int (raw (codes "divergedev.com/max-active-environments")));
        max_cnpg = positive_int (parse_int (raw (codes "divergedev.com/max-cnpg-clusters")));
        max_hourly_cost = positive_cost (if is_empty cost then none else parse_float cost);
        rejects =
            text_eq (to_lower (raw (codes "divergedev.com/quota-exceed-policy"))) (codes "reject");
      }

  -- Another environment of the namespace that neither ends nor has ended.
  unfoldable pub is_other : Environment → Environment → Bool
  unfolding is_finished
  is_other env item =
      not (text_eq item.name env.name) && not item.is_deleting && not (is_finished item.phase)

  unfoldable pub is_hibernated : Environment → Bool
  unfolding annotation
  is_hibernated item = text_eq (annotation hibernated item.annotations) (codes "true")

  unfoldable pub other_cnpg_count : Environment → List Environment → ℕ
  unfolding is_other uses_cnpg_cluster
  other_cnpg_count env items =
      length (keep (λ item. is_other env item && uses_cnpg_cluster item) items)

  -- The candidates for hibernation, in their order.
  unfoldable pub other_active : Environment → List Environment → List Environment
  unfolding is_other is_hibernated is_older
  other_active env items =
      sort is_older (keep (λ item. is_other env item && not (is_hibernated item)) items)

  unfoldable pub sum_hourly_cost : F → List Environment → F
  sum_hourly_cost sum [] = sum
  sum_hourly_cost sum (item ∷ others) = sum_hourly_cost (add_cost sum (hourly_cost item)) others

  -- exceedsQuota: the message, where the quota is exceeded.
  unfoldable pub exceeds_quota : Limits F → Environment → List Environment → Option Text
  unfolding sum_hourly_cost
  exceeds_quota limits env others =
      let active = length others + 1 in
      let total = add_cost (sum_hourly_cost zero_cost others) (hourly_cost env) in
      let by_cost : Option Text = elim limits.max_hourly_cost [
        | none ↦ none
        | some max ↦
            if exceeds_cost total max
            then some (
                codes "namespace "
                ++ env.namespace
                ++ codes " quota exceeded: hourly cost $"
                ++ format_cost total
                ++ codes "/hr exceeds max-hourly-cost-usd=$"
                ++ format_cost max
                ++ codes "/hr")
            else none
      ] in
      if ltb 0 limits.max_active && ltb limits.max_active active
      then some (
          codes "namespace "
          ++ env.namespace
          ++ codes " quota exceeded: active environments "
          ++ format_uint active
          ++ codes " exceeds max-active-environments="
          ++ format_uint limits.max_active)
      else by_cost

  -- The loop that moves the oldest of the remaining environments to the victims: the message of a
  -- refusal, or the victims and what remains.
  unfoldable pub choose_victims :
      Limits F
      → Environment
      → List Environment
      → List Environment
      → Result Text (List Environment × List Environment)
  unfolding exceeds_quota
  choose_victims limits env victims [] = elim (exceeds_quota limits env []) [
    | none ↦ ok (victims, [])
    | some msg ↦ err msg
  ]
  choose_victims limits env victims (oldest ∷ rest) =
      let next = choose_victims limits env (victims ++ oldest ∷ []) rest in
      elim (exceeds_quota limits env (oldest ∷ rest)) [
        | none ↦ ok (victims, oldest ∷ rest)
        | some msg ↦ if limits.rejects then err msg else next
      ]
