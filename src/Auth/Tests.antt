-- ===== src/Auth/Tests.antt =====
-- Concrete tokens of pkg/auth/macaroon.go, and the theorems on them.
use diverge.Base.{
  ℕ, List, [], ◌∷◌, ◌++◌, some, ◌≡◌, ◌≢◌, refl, ◌↔◌, arith, codes, is_empty, all, split, join,
  contains, has_prefix, false, text_eq, All, any, ok, err,
}
use diverge.Base.Hex.{hex_encode, hex_decode}
use diverge.Base.Int.{pos}
use diverge.Base.Decimal.{format_int, parse_int}
use diverge.Auth.Small.{sum, cents, small_go, root_key, claims, nonce, token_of, token}
use diverge.Auth.Types.{Caveat, Claims, Macaroon, Checked, op_less_than}
use diverge.Auth.Mint.{
  usable_key, nonce_bytes, serialize_caveat_canonical, cost_value, mint, mint_caveats,
  append_caveats, attenuate, caveat,
}
use diverge.Auth.Verify.{verify_macaroon, replay, note_caveat}
use diverge.Auth.Models.{
  matches_allowed_model, matches_fuel, has_suffix, is_match, matches_trimmed, tier_patterns, trim,
  trim_suffix,
}
use diverge.Auth.Caveats.{
  is_positive_cost, evaluate_caveat, evaluate_key, caveat_key, parsed, tool_matches,
}
use diverge.Auth.Extract.{
  extract_macaroon, extract_all, extract_start, extract_caveat, extract_key, narrow, tighten_cost,
  tighten_tokens,
}
use diverge.Auth.Signatures.{IsSealed, HmacIsBytes, attenuate-IsSealed}
use diverge.Auth.Soundness.{Meets, IsGood, verify_macaroon_iff}
use diverge.Auth.Attenuation.{verify-attenuate_iff}
use diverge.Auth.Needs.{IsFresh}
use diverge.Auth.Minted.{IsPrintable, Permits, verify-mint_iff}
use diverge.Auth.Narrowing.{ClaimsNarrow, FloatLtIsTransitive}
use diverge.Auth.Memory.{
  new_in_memory_token_store, get_token, is_revoked, Op, save, revoke, run, no_tasks, record_ops,
  answer, is_withdrawn, HasPlainNamespace,
}
use diverge.Auth.Table.{run-refines}
use diverge.Auth.Effective.{extract_macaroon_sound, extract-attenuate_narrows}

abbrev request : Claims ℕ
request = record claims {
  allowed_tools = codes "read" ∷ [];
  allowed_models = codes "gpt-4o" ∷ [];
  max_cost_usd = 200;
  tokens_consumed = pos 70;
}

abbrev fewer_tokens : List Caveat
fewer_tokens = caveat (codes "max_tokens") op_less_than (codes "50") ∷ []

abbrev child : Macaroon
child = token_of (attenuate small_go token fewer_tokens)

minted : mint small_go (some root_key) claims (some nonce) ≡ ok token
unfolding mint is_empty
minted = refl

attenuated : attenuate small_go token fewer_tokens ≡ ok child
unfolding mint is_empty usable_key nonce_bytes mint_caveats append_caveats
    serialize_caveat_canonical cost_value sum format_int hex_encode join attenuate hex_decode
attenuated = refl

accepted : verify_macaroon small_go root_key token request (pos 1800) ≡ ok tt
unfolding mint is_empty usable_key nonce_bytes mint_caveats append_caveats
    serialize_caveat_canonical cost_value sum format_int hex_encode join verify_macaroon replay
    note_caveat evaluate_caveat evaluate_key caveat_key text_eq parse_int cents all any split
    matches_allowed_model matches_fuel is_positive_cost parsed tool_matches has_suffix is_match
    matches_trimmed tier_patterns trim trim_suffix contains has_prefix
accepted = refl

small_bytes : HmacIsBytes small_go
small_bytes key message = (omega arith, tt)

small_transitive : FloatLtIsTransitive small_go
small_transitive a b c h k = ground arith

small_zero : is_positive_cost small_go 0 ≡ false
unfolding is_positive_cost
small_zero = refl

nonce_ne : nonce ≢ []
nonce_ne e = cc

printable : IsPrintable small_go request (pos 1800) claims
unfolding text_eq
printable = record {
  expiry = ground arith;
  tokens = ground arith;
  tools = ground arith;
  models = ground arith;
}

verify_macaroon_iff_example :
    (verify_macaroon small_go root_key token request (pos 1800) ≡ ok tt)
    ↔ IsGood small_go root_key token request (pos 1800)
verify_macaroon_iff_example = verify_macaroon_iff small_go root_key token request (pos 1800)

verify-mint_iff_example :
    (verify_macaroon small_go root_key token request (pos 1800) ≡ ok tt)
    ↔ Permits small_go request (pos 1800) claims
verify-mint_iff_example =
    verify-mint_iff small_go root_key claims nonce request (pos 1800) nonce_ne printable minted

sealed : IsSealed small_go root_key token
sealed = (verify_macaroon_iff_example.0 accepted).0

verify-attenuate_iff_example :
    (verify_macaroon small_go root_key child request (pos 1800) ≡ ok tt) ↔ (
      (verify_macaroon small_go root_key token request (pos 1800) ≡ ok tt)
      × All (Meets small_go request (pos 1800)) fewer_tokens)
verify-attenuate_iff_example =
    verify-attenuate_iff small_go small_bytes root_key token child fewer_tokens request (pos 1800)
      sealed ((verify_macaroon_iff_example.0 accepted).2)
      ((verify_macaroon_iff_example.0 accepted).3) attenuated

attenuate-IsSealed_example :
    (mac' : Macaroon) × (attenuate small_go token fewer_tokens ≡ ok mac')
    × IsSealed small_go root_key mac'
    × (mac'.token_id ≡ token.token_id)
    × (mac'.caveat_seq ≡ token.caveat_seq ++ fewer_tokens)
attenuate-IsSealed_example =
    attenuate-IsSealed small_go small_bytes root_key token fewer_tokens sealed

abbrev claims_of : Checked (Claims ℕ) → Claims ℕ
claims_of (ok c) = c
claims_of (err e) = claims

abbrev granted : Claims ℕ
granted = claims_of (extract_macaroon small_go root_key token (pos 1700))

abbrev granted_child : Claims ℕ
granted_child = claims_of (extract_macaroon small_go root_key child (pos 1800))

extracted : extract_macaroon small_go root_key token (pos 1700) ≡ ok granted
unfolding mint is_empty usable_key nonce_bytes mint_caveats append_caveats
    serialize_caveat_canonical cost_value sum format_int hex_encode join extract_macaroon
    extract_all extract_start extract_caveat extract_key caveat_key text_eq parse_int cents
    is_positive_cost all split narrow tighten_tokens tighten_cost
extracted = refl

extracted_child : extract_macaroon small_go root_key child (pos 1800) ≡ ok granted_child
unfolding mint is_empty usable_key nonce_bytes mint_caveats append_caveats
    serialize_caveat_canonical cost_value sum format_int hex_encode join attenuate hex_decode
    extract_macaroon extract_all extract_start extract_caveat extract_key caveat_key text_eq
    parse_int cents is_positive_cost all split narrow tighten_tokens tighten_cost
extracted_child = refl

extract_macaroon_sound_example :
    IsSealed small_go root_key token
    × (granted.task_id ≡ token.token_id)
    × (granted.namespace ≢ [])
    × IsFresh granted.expires_at (pos 1700)
extract_macaroon_sound_example =
    extract_macaroon_sound small_go root_key token (pos 1700) granted extracted

extract-attenuate_narrows_example : ClaimsNarrow small_go granted granted_child
extract-attenuate_narrows_example =
    extract-attenuate_narrows small_go small_transitive small_zero small_bytes root_key token child
      fewer_tokens (pos 1700) (pos 1800) (omega arith) granted granted_child attenuated extracted
      extracted_child

abbrev history : List Op
history =
    save (codes "t1") (codes "dev") (codes "tok")
    ∷ revoke (codes "t1") (codes "dev")
    ∷ save (codes "t2") (codes "dev") (codes "other")
    ∷ []

history-plain : All HasPlainNamespace history
history-plain = ground arith

run-refines_example :
    (get_token (codes "t1") (codes "dev") (run history new_in_memory_token_store)
      ≡ answer (record_ops history no_tasks (codes "t1") (codes "dev")))
    × (is_revoked (codes "t1") (codes "dev") (run history new_in_memory_token_store)
        ≡ is_withdrawn (record_ops history no_tasks (codes "t1") (codes "dev")))
run-refines_example = run-refines history (codes "t1") (codes "dev") history-plain (ground arith)
