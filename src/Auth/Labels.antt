-- ===== src/Auth/Labels.antt =====
-- The names that pkg/auth/store.go gives the objects of a task: labels, Secrets and keys.
use diverge.Base.{
  ℕ, ◌-◌, Bool, false, not, ◌&&◌, ◌||◌, [], ◌∷◌, ◌++◌, none, some, Text, codes, is_empty, text_eq,
  if◌then◌else◌, leb, ltb, ◌==◌, length, take, all,
}
use diverge.Base.Hex.{hex_encode}
use diverge.Base.Maps.{Map}

abbrev pub label_agent_task : Text
label_agent_task = codes "divergedev.com/agent-task"

abbrev pub label_revoked : Text
label_revoked = codes "divergedev.com/revoked"

abbrev pub managed_by_label : Text
managed_by_label = codes "app.kubernetes.io/managed-by"

abbrev pub token_index_secret_name : Text
token_index_secret_name = codes "diverge-agenttask-tokens"

abbrev pub is_alnum_ascii : ℕ → Bool
is_alnum_ascii b =
    (leb b'a' b && leb b b'z') || (leb b'A' b && leb b b'Z') || (leb b'0' b && leb b b'9')

abbrev pub is_label_char_ascii : ℕ → Bool
is_label_char_ascii b = is_alnum_ascii b || b == b'-' || b == b'_' || b == b'.'

-- `s[0]` and `s[len(s)-1]` of a string that is not empty.
unfoldable pub first_is : (ℕ → Bool) → Text → Bool
first_is p [] = false
first_is p (c ∷ s) = p c

unfoldable pub last_is : (ℕ → Bool) → Text → Bool
last_is p [] = false
last_is p (c ∷ []) = p c
last_is p (c ∷ d ∷ s) = last_is p (d ∷ s)

unfoldable pub is_valid_k8s_label : Text → Bool
is_valid_k8s_label s =
    if is_empty s || ltb 63 (length s)
    then false
    else if not (first_is is_alnum_ascii s) || not (last_is is_alnum_ascii s)
    then false
    else all is_label_char_ascii s

-- The cutset "-_." of strings.TrimLeft and strings.TrimRight.
abbrev pub is_edge : ℕ → Bool
is_edge c = c == b'-' || c == b'_' || c == b'.'

unfoldable pub trim_left : (ℕ → Bool) → Text → Text
trim_left p [] = []
trim_left p (c ∷ s) = let rest = trim_left p s in if p c then rest else c ∷ s

unfoldable pub trim_right : (ℕ → Bool) → Text → Text
trim_right p [] = []
trim_right p (c ∷ s) = let rest = trim_right p s in if is_empty rest && p c then [] else c ∷ rest

-- The loop over the bytes of the task's id.
unfoldable pub sanitize : Text → Text
sanitize [] = []
sanitize (c ∷ s) = (if is_label_char_ascii c then c else b'-') ∷ sanitize s

-- Reading a missing key of a map[string]string gives "".
unfoldable pub lookup : Map Text → Text → Text
lookup m k = elim (m k) [ none ↦ [] | some v ↦ v ]

-- SHA-256 of a text.
module _ (sha256 : Text → Text) where
  -- `hex.EncodeToString(h[:8])`
  abbrev pub short_hash : Text → Text
  short_hash task_id = hex_encode (take 8 (sha256 task_id))

  -- The prefix of a task's label: its sanitized id, cut and trimmed.
  abbrev pub label_prefix : Text → Text
  label_prefix task_id =
      trim_right is_edge
        (trim_left is_edge (take (63 - 1 - length (short_hash task_id)) (sanitize task_id)))

  unfoldable pub task_label_value : Text → Text
  task_label_value task_id =
      if is_valid_k8s_label task_id
      then task_id
      else if is_empty (label_prefix task_id)
      then short_hash task_id
      else label_prefix task_id ++ b'-' ∷ short_hash task_id

  unfoldable pub legacy_task_label_value : Text → Text
  legacy_task_label_value task_id =
      if leb (length task_id) 63
      then task_id
      else take (63 - 1 - length (short_hash task_id)) task_id ++ b'-' ∷ short_hash task_id

  unfoldable pub matches_task_label : Map Text → Text → Bool
  unfolding lookup
  matches_task_label labels task_id =
      let actual = lookup labels label_agent_task in
      if is_empty actual
      then false
      else text_eq actual (task_label_value task_id)
        || text_eq actual (legacy_task_label_value task_id)

  unfoldable pub secret_name : Text → Text
  secret_name task_id =
      let base = task_id ++ codes "-token" in
      if leb (length base) 253
      then base
      else take (253 - 7 - length (short_hash task_id)) task_id
        ++ (codes "-token-" ++ short_hash task_id)

  unfoldable pub revoked_index_key : Text → Text
  revoked_index_key task_id =
      codes "revoked.divergedev.com/" ++ hex_encode (take 16 (sha256 task_id))
