-- ===== src/Auth/Types.antt =====
-- The types of pkg/auth/auth.go and pkg/auth/macaroon.go, and what the package uses of Go's standard
-- library that is not modelled by itself.
use diverge.Base.{Bool, List, Option, Result, Text, codes}
use diverge.Base.Int.{ℤ}

abbrev pub op_equal : Text
op_equal = codes "="

abbrev pub op_in : Text
op_in = codes "in"

abbrev pub op_less_than : Text
op_less_than = codes "<"

abbrev pub op_before : Text
op_before = codes "before"

abbrev pub op_glob : Text
op_glob = codes "glob"

-- CaveatOp is a string type, so a token may carry any operator.
pub record Caveat : Type 0 where
  pub key : Text
  pub op : Text
  pub value : Text

-- `expires_at` is the Unix time in seconds, `none` for the zero time.
pub record Claims (Float : Type 0) : Type 0 where
  pub task_id : Text
  pub namespace : Text
  pub repo_url : Text
  pub branch : Text
  pub allowed_tools : List Text
  pub allowed_models : List Text
  pub max_cost_usd : Float
  pub max_tokens : ℤ
  pub tokens_consumed : ℤ
  pub expires_at : Option ℤ

pub record Macaroon : Type 0 where
  pub token_id : Text
  pub location : Text
  pub caveat_seq : List Caveat
  pub signature : Text

-- The sentinel errors; the text that wraps them is left out. The last four are the unnamed errors
-- of Mint.
pub data AuthError : Type 0 where
  invalid_signature token_expired caveat_failed malformed_token : AuthError
  short_root_key no_task_id no_namespace no_nonce : AuthError

abbrev pub Checked : Type 0 → Type 0
Checked = Result AuthError

-- float64 with its order, its sum and its texts, HMAC-SHA256, filepath.Match (`none` is ErrBadPattern),
-- strings.TrimSpace and strings.ToLower, and json.Unmarshal into a Macaroon (`none` is an error).
pub record Go : Type 1 where
  pub Float : Type 0
  pub zero_float : Float
  pub one_cent : Float
  pub float_lt : Float → Float → Bool
  pub float_eq : Float → Float → Bool
  pub float_add : Float → Float → Float
  pub is_nan : Float → Bool
  pub is_inf : Float → Bool
  pub parse_float : Text → Option Float
  pub format_two_decimals : Float → Text
  pub format_shortest : Float → Text
  pub format_four_decimals : Float → Text
  pub hmac_sha256 : Text → Text → Text
  pub match_glob : Text → Text → Option Bool
  pub trim_space : Text → Text
  pub to_lower : Text → Text
  pub unmarshal : Text → Option Macaroon

-- The labels of the switch over a caveat's key.
pub data CaveatKey : Type 0 where
  task_id namespace repo branch expires_at allowed_tools allowed_models : CaveatKey
  max_cost_usd max_tokens nonce unrecognized : CaveatKey
