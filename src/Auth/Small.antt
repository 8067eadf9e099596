-- ===== src/Auth/Small.antt =====
-- A small instance of what pkg/auth takes from Go's standard library, to run its code on.
use diverge.Base.{
  ℕ, ◌+◌, ◌*◌, ◌%◌, [], ◌∷◌, Option, none, some, Text, codes, ok, err, false, ltb, ◌==◌, text_eq,
}
use diverge.Base.Int.{ℤ, pos, pos_part}
use diverge.Base.Decimal.{format_int, parse_int}
use diverge.Auth.Types.{Go, Claims, Macaroon, Checked}
use diverge.Auth.Mint.{mint}

unfoldable pub sum : Text → ℕ
sum [] = 0
sum (c ∷ s) = c + sum s

unfoldable pub cents : Option ℤ → Option ℕ
cents none = none
cents (some z) = some (pos_part z)

-- A small instance: costs in whole cents, and a checksum in place of HMAC-SHA256.
abbrev pub small_go : Go
small_go = record {
  Float = ℕ;
  zero_float = 0;
  one_cent = 1;
  float_lt = ltb;
  float_eq = λ x y. x == y;
  float_add = λ x y. x + y;
  is_nan = λ x. false;
  is_inf = λ x. false;
  parse_float = λ t. cents (parse_int t);
  format_two_decimals = λ x. format_int (pos x);
  format_shortest = λ x. format_int (pos x);
  format_four_decimals = λ x. format_int (pos x);
  hmac_sha256 = λ key message. (sum key + 3 * sum message) % 256 ∷ [];
  match_glob = λ pattern name. some (text_eq pattern name);
  trim_space = λ t. t;
  to_lower = λ t. t;
  unmarshal = λ t. none;
}

abbrev pub root_key : Text
root_key = codes "0123456789abcdef0123456789abcdef"

abbrev pub claims : Claims ℕ
claims = record {
  task_id = codes "t1";
  namespace = codes "dev";
  repo_url = [];
  branch = codes "main";
  allowed_tools = codes "read" ∷ codes "write" ∷ [];
  allowed_models = codes "gpt-4*" ∷ [];
  max_cost_usd = 500;
  max_tokens = pos 1000;
  tokens_consumed = pos 0;
  expires_at = some (pos 1800);
}

abbrev pub nonce : Text
nonce = 7 ∷ 200 ∷ []

abbrev pub unsigned : Macaroon
unsigned = record { token_id = []; location = []; caveat_seq = []; signature = [] }

abbrev pub token_of : Checked Macaroon → Macaroon
token_of (ok m) = m
token_of (err e) = unsigned

abbrev pub token : Macaroon
token = token_of (mint small_go (some root_key) claims (some nonce))
