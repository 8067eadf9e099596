-- ===== src/Auth/Memory.antt =====
-- InMemoryTokenStore of pkg/auth/store.go, against a table of tasks.
use diverge.Base.{
  Bool, true, false, ◌&&◌, List, [], ◌∷◌, ◌++◌, Option, none, some, Text, text_eq, Lacks, Result,
  ok, err, if◌then◌else◌,
}
use diverge.Base.Maps.{Map, empty_map, put, delete}

pub data TokenError : Type 0 where
  token_not_found token_revoked : TokenError

pub record InMemoryTokenStore : Type 0 where
  pub tokens : Map Text
  pub revoked : Map Bool

abbrev pub new_in_memory_token_store : InMemoryTokenStore
new_in_memory_token_store = record { tokens = empty_map; revoked = empty_map }

unfoldable pub token_key : Text → Text → Text
token_key task_id namespace = namespace ++ b'/' ∷ task_id

unfoldable pub save_token : Text → Text → Text → InMemoryTokenStore → InMemoryTokenStore
unfolding token_key
save_token task_id namespace token s =
    let key = token_key task_id namespace in
    record { tokens = put key token s.tokens; revoked = delete key s.revoked }

-- Reading a missing key of a map[string]bool gives false.
abbrev pub is_set : Option Bool → Bool
is_set none = false
is_set (some b) = b

abbrev pub found : Option Text → Result TokenError Text
found none = err TokenError.token_not_found
found (some tok) = ok tok

unfoldable pub get_token : Text → Text → InMemoryTokenStore → Result TokenError Text
unfolding token_key
get_token task_id namespace s =
    let key = token_key task_id namespace in
    if is_set (s.revoked key) then err TokenError.token_revoked else found (s.tokens key)

unfoldable pub delete_token : Text → Text → InMemoryTokenStore → InMemoryTokenStore
unfolding token_key
delete_token task_id namespace s =
    let key = token_key task_id namespace in
    record { tokens = delete key s.tokens; revoked = delete key s.revoked }

unfoldable pub revoke_token : Text → Text → InMemoryTokenStore → InMemoryTokenStore
unfolding token_key
revoke_token task_id namespace s = record s {
  revoked = put (token_key task_id namespace) true s.revoked;
}

unfoldable pub is_revoked : Text → Text → InMemoryTokenStore → Bool
unfolding token_key
is_revoked task_id namespace s = is_set (s.revoked (token_key task_id namespace))

-- The operations that change a store.
pub data Op : Type 0 where
  save : Text → Text → Text → Op
  remove : Text → Text → Op
  revoke : Text → Text → Op

unfoldable pub apply : Op → InMemoryTokenStore → InMemoryTokenStore
apply (save task ns token) s = save_token task ns token s
apply (remove task ns) s = delete_token task ns s
apply (revoke task ns) s = revoke_token task ns s

unfoldable pub run : List Op → InMemoryTokenStore → InMemoryTokenStore
unfolding apply
run [] s = s
run (o ∷ os) s = run os (apply o s)

-- What the store is about: the token of each task of each namespace.
pub data Entry : Type 0 where
  absent withdrawn : Entry
  active : Text → Entry

abbrev pub Table : Type 0
Table = Text → Text → Entry

abbrev pub no_tasks : Table
no_tasks task ns = Entry.absent

unfoldable pub set_entry : Text → Text → Entry → Table → Table
set_entry task ns e t task' ns' = if text_eq task' task && text_eq ns' ns then e else t task' ns'

unfoldable pub record_op : Op → Table → Table
unfolding set_entry
record_op (save task ns token) t = set_entry task ns (Entry.active token) t
record_op (remove task ns) t = set_entry task ns Entry.absent t
record_op (revoke task ns) t = set_entry task ns Entry.withdrawn t

unfoldable pub record_ops : List Op → Table → Table
unfolding record_op
record_ops [] t = t
record_ops (o ∷ os) t = record_ops os (record_op o t)

abbrev pub answer : Entry → Result TokenError Text
answer Entry.absent = err TokenError.token_not_found
answer Entry.withdrawn = err TokenError.token_revoked
answer (Entry.active token) = ok token

abbrev pub is_withdrawn : Entry → Bool
is_withdrawn Entry.withdrawn = true
is_withdrawn Entry.absent = false
is_withdrawn (Entry.active token) = false

-- The namespace of an operation holds no '/'; names of namespaces never do.
abbrev pub HasPlainNamespace : Op → Type 0
HasPlainNamespace (save task ns token) = Lacks b'/' ns
HasPlainNamespace (remove task ns) = Lacks b'/' ns
HasPlainNamespace (revoke task ns) = Lacks b'/' ns
