-- ===== src/Topology/Paths.antt =====
-- AllIngressPaths of pkg/topology/graph.go.
use diverge.Base.{
  ℕ, zero, suc, ◌≤◌, false, List, [], ◌∷◌, ◌++◌, ◌≡◌, refl, inl, inr, ◌↔◌, arith, Text, text_eq,
  text_eq_iff, In, In-append_left, In-append_right, In-append_cases, Bool-cases, subst,
  if◌then◌else◌, leb, length, length-append, All, All-append, All-intro,
}
use diverge.Topology.Sets.{has, add, has_iff, In-add_iff}
use diverge.Topology.Graph.{ServiceGraph, neighbors, entrypoint_names}

pub record IngressPath : Type 0 where
  pub entrypoint : Text
  pub hops : List Text

abbrev pub max_ingress_paths : ℕ
max_ingress_paths = 100

-- `for _, neighbor := range … { if !visited[neighbor] { dfs(neighbor, …) } }`
unfoldable pub visit_each :
    (Text → List IngressPath → List IngressPath)
    → List Text
    → List Text
    → List IngressPath
    → List IngressPath
visit_each visit visited [] paths = paths
visit_each visit visited (n ∷ ns) paths =
    visit_each visit visited ns (if has visited n then paths else visit n paths)

-- dfs: `path` is the path before `current`, and `paths` the results so far. The program sets
-- visited[current] around the loop; the model passes the larger set on. The fuel bounds the depth.
unfoldable pub dfs :
    ℕ
    → ServiceGraph
    → Text
    → Text
    → Text
    → List Text
    → List Text
    → List IngressPath
    → List IngressPath
unfolding visit_each
dfs zero g target ep current path visited paths = paths
dfs (suc fuel) g target ep current path visited paths =
    let path' = path ++ current ∷ [] in
    let found = paths ++ record { entrypoint = ep; hops = path' } ∷ [] in
    let rest =
      visit_each (λ n ps. dfs fuel g target ep n path' (add current visited) ps)
        (add current visited) (neighbors g current) paths in
    if leb max_ingress_paths (length paths)
    then paths
    else if text_eq current target
    then found
    else rest

-- The loop over the entrypoints.
unfoldable pub from_entrypoints :
    ℕ → ServiceGraph → Text → List Text → List IngressPath → List IngressPath
unfolding dfs
from_entrypoints fuel g target [] paths = paths
from_entrypoints fuel g target (ep ∷ eps) paths =
    let direct =
      from_entrypoints fuel g target eps
        (paths ++ record { entrypoint = ep; hops = ep ∷ [] } ∷ []) in
    let searched = from_entrypoints fuel g target eps (dfs fuel g target ep ep [] [] paths) in
    if leb max_ingress_paths (length paths)
    then paths
    else if text_eq ep target
    then direct
    else searched

unfoldable pub all_ingress_paths : ServiceGraph → Text → List IngressPath
unfolding from_entrypoints
all_ingress_paths g target =
    from_entrypoints (suc (length g.nodes)) g target (entrypoint_names g) []

-- A walk along neighbors that meets no service twice, from `a` over `hops` to the last hop.
pub data Walk (g : ServiceGraph) (a : Text) : List Text → Text → Type 0 where
  start : Walk g a (a ∷ []) a
  step :
      {hops hops' : List Text} {b : Text} (c : Text)
      → Walk g a hops b
      → In c (neighbors g b)
      → ¬ In c hops
      → hops' ≡ hops ++ c ∷ []
      → Walk g a hops' c

-- A result leads from an entrypoint of the graph to the target.
abbrev pub IsRoute : ServiceGraph → Text → IngressPath → Type 0
IsRoute g target p = In p.entrypoint g.entrypoints × Walk g p.entrypoint p.hops target

pub one_more :
    (ps : List IngressPath) (p : IngressPath)
    → leb max_ingress_paths (length ps) ≡ false
    → length (ps ++ p ∷ []) ≤ 100
one_more ps p more = let n = length-append ps (p ∷ []) in ground arith

-- The set of visited services stays that of the path.
pub visited-path_iff :
    (current : Text) (path visited : List Text)
    → ((x : Text) → In x visited ↔ In x path)
    → (x : Text) → In x (add current visited) ↔ In x (path ++ current ∷ [])
visited-path_iff current path visited same x = (
  (λ i. elim ((In-add_iff current x visited).0 i) [
    | inl old ↦ In-append_left x path (current ∷ []) ((same x).0 old)
    | inr here ↦ In-append_right x path (current ∷ []) (inl here)
  ]),
  (λ i. (In-add_iff current x visited).1 (elim (In-append_cases x path (current ∷ []) i) [
    | inl old ↦ inl ((same x).1 old)
    | inr (inl here) ↦ inr here
    | inr (inr never) ↦ absurd never
  ])),
)

module _ (g : ServiceGraph) (target ep : Text) (entry : In ep g.entrypoints) where
  abbrev Routes : List IngressPath → Type 0
  Routes = All (IsRoute g target)

  visit_each-Routes :
      (visit : Text → List IngressPath → List IngressPath) (visited : List Text) (b : Text)
      → ((n : Text) (ps : List IngressPath)
          → In n (neighbors g b)
          → has visited n ≡ false
          → Routes ps
          → Routes (visit n ps))
      → (ns : List Text) (ps : List IngressPath) → All (λ n. In n (neighbors g b)) ns
      → Routes ps
      → Routes (visit_each visit visited ns ps)
  unfolding visit_each
  visit_each-Routes visit visited b h [] ps near good = good
  visit_each-Routes visit visited b h (n ∷ ns) ps near good =
      visit_each-Routes visit visited b h ns _ near.1 (elim (Bool-cases (has visited n)) [
        | inl old ↦ rw old good
        | inr new ↦ rw new (h n ps near.0 new good)
      ])

  pub dfs-Routes :
      (fuel : ℕ) (current : Text) (path visited : List Text) (ps : List IngressPath)
      → Walk g ep (path ++ current ∷ []) current
      → ((x : Text) → In x visited ↔ In x path)
      → Routes ps
      → Routes (dfs fuel g target ep current path visited ps)
  unfolding dfs
  dfs-Routes zero current path visited ps w same good = good
  dfs-Routes (suc fuel) current path visited ps w same good =
      let visited' = add current visited in
      let same' = visited-path_iff current path visited same in
      let rest =
        visit_each-Routes (λ n ps. dfs fuel g target ep n (path ++ current ∷ []) visited' ps)
          visited' current
          (λ n ps near new rs.
            let fresh : ¬ In n (path ++ current ∷ []) =
              λ i. absurd (cc (let s = (has_iff visited' n).1 ((same' n).1 i) in s)) in
            dfs-Routes fuel n (path ++ current ∷ []) visited' ps (step n w near fresh refl) same'
              rs)
          (neighbors g current) ps
          (All-intro (λ n. In n (neighbors g current)) (neighbors g current) (λ n i. i)) good in
      elim (Bool-cases (leb max_ingress_paths (length ps))) [
        | inl full ↦ rw full good
        | inr more ↦ elim (Bool-cases (text_eq current target)) [
          | inl found ↦
              rw (more, found)
                (All-append (IsRoute g target) ps _ good (
                  (
                    entry,
                    subst (λ t. Walk g ep (path ++ current ∷ []) t)
                        ((text_eq_iff current target).0 found) w,
                  ),
                  tt,
                ))
          | inr on ↦ rw (more, on) rest
        ]
      ]

module _ (g : ServiceGraph) (target ep : Text) where
  visit_each-bound :
      (visit : Text → List IngressPath → List IngressPath) (visited : List Text)
      → ((n : Text) (ps : List IngressPath) → length ps ≤ 100 → length (visit n ps) ≤ 100)
      → (ns : List Text) (ps : List IngressPath) → length ps ≤ 100
      → length (visit_each visit visited ns ps) ≤ 100
  unfolding visit_each
  visit_each-bound visit visited h [] ps fits = fits
  visit_each-bound visit visited h (n ∷ ns) ps fits =
      visit_each-bound visit visited h ns _ (elim (Bool-cases (has visited n)) [
        | inl old ↦ rw old fits
        | inr new ↦ rw new (h n ps fits)
      ])

  pub dfs-bound :
      (fuel : ℕ) (current : Text) (path visited : List Text) (ps : List IngressPath)
      → length ps ≤ 100
      → length (dfs fuel g target ep current path visited ps) ≤ 100
  unfolding dfs
  dfs-bound zero current path visited ps fits = fits
  dfs-bound (suc fuel) current path visited ps fits =
      let rest =
        visit_each-bound
          (λ n ps. dfs fuel g target ep n (path ++ current ∷ []) (add current visited) ps)
          (add current visited)
          (λ n ps fits. dfs-bound fuel n (path ++ current ∷ []) (add current visited) ps fits)
          (neighbors g current) ps fits in
      elim (Bool-cases (leb max_ingress_paths (length ps))) [
        | inl full ↦ rw full fits
        | inr more ↦ elim (Bool-cases (text_eq current target)) [
          | inl found ↦ rw (more, found) (one_more ps _ more)
          | inr on ↦ rw (more, on) rest
        ]
      ]
