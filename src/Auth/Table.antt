-- ===== src/Auth/Table.antt =====
-- InMemoryTokenStore of pkg/auth/store.go is a table of tasks.
use diverge.Base.{
  ◌&&◌, List, [], ◌∷◌, Option, none, some, ◌≡◌, refl, ap, ◌∙◌, inl, inr, arith, Text, text_eq,
  Lacks, All, Option-cases, if◌then◌else◌,
}
use diverge.Base.Maps.{put, delete}
use diverge.Auth.Memory.{
  InMemoryTokenStore, new_in_memory_token_store, token_key, save_token, get_token, delete_token,
  revoke_token, is_revoked, is_set, Op, save, remove, revoke, apply, run, Entry, Table, no_tasks,
  set_entry, record_op, record_ops, answer, is_withdrawn, HasPlainNamespace,
}

-- Two tasks share a key only if they are the same.
text_eq-token_key :
    (t t' ns ns' : Text)
    → Lacks b'/' ns
    → Lacks b'/' ns'
    → text_eq (token_key t' ns') (token_key t ns) ≡ (text_eq t' t && text_eq ns' ns)
unfolding token_key text_eq
text_eq-token_key t t' [] [] h h' = ground arith
text_eq-token_key t t' [] (c ∷ ns') h h' = let n = h'.0 in ground arith
text_eq-token_key t t' (c ∷ ns) [] h h' = let n = h.0 in ground arith
text_eq-token_key t t' (c ∷ ns) (d ∷ ns') h h' =
    let rest = text_eq-token_key t t' ns ns' h.1 h'.1 in ground arith

abbrev entry_of : Option Text → Entry
entry_of none = Entry.absent
entry_of (some token) = Entry.active token

-- The entry that a store holds for a task.
abbrev view : InMemoryTokenStore → Table
view s task ns =
    if is_set (s.revoked (token_key task ns))
    then Entry.withdrawn
    else entry_of (s.tokens (token_key task ns))

view-apply :
    (o : Op) (s : InMemoryTokenStore) (t : Table) (task ns : Text)
    → HasPlainNamespace o
    → Lacks b'/' ns
    → view s task ns ≡ t task ns
    → view (apply o s) task ns ≡ record_op o t task ns
unfolding apply save_token delete_token revoke_token put delete record_op set_entry
view-apply (save task' ns' token) s t task ns h h' e =
    let k = text_eq-token_key task' task ns' ns h h' in ground arith
view-apply (remove task' ns') s t task ns h h' e =
    let k = text_eq-token_key task' task ns' ns h h' in ground arith
view-apply (revoke task' ns') s t task ns h h' e =
    let k = text_eq-token_key task' task ns' ns h h' in ground arith

view-run :
    (os : List Op) (s : InMemoryTokenStore) (t : Table) (task ns : Text)
    → All HasPlainNamespace os
    → Lacks b'/' ns
    → view s task ns ≡ t task ns
    → view (run os s) task ns ≡ record_ops os t task ns
unfolding run record_ops
view-run [] s t task ns h h' e = e
view-run (o ∷ os) s t task ns h h' e =
    view-run os (apply o s) (record_op o t) task ns h.1 h' (view-apply o s t task ns h.0 h' e)

answer-view :
    (s : InMemoryTokenStore) (task ns : Text)
    → (get_token task ns s ≡ answer (view s task ns))
      × (is_revoked task ns s ≡ is_withdrawn (view s task ns))
unfolding get_token is_revoked
answer-view s task ns = elim (Option-cases (s.tokens (token_key task ns))) [
  | inl e ↦ ground arith
  | inr (tok, e) ↦ ground arith
]

-- After any saves, deletions and revocations in namespaces without a '/', GetToken and IsRevoked of
-- the in-memory store answer for a task of such a namespace as a table of tasks does, in which each
-- operation changes the entry of its own task.
pub run-refines :
    (os : List Op) (task ns : Text)
    → All HasPlainNamespace os
    → Lacks b'/' ns
    → (get_token task ns (run os new_in_memory_token_store)
        ≡ answer (record_ops os no_tasks task ns))
      × (is_revoked task ns (run os new_in_memory_token_store)
          ≡ is_withdrawn (record_ops os no_tasks task ns))
run-refines os task ns h h' =
    let s = run os new_in_memory_token_store in
    let seen = view-run os new_in_memory_token_store no_tasks task ns h h' refl in
    let asked = answer-view s task ns in (asked.0 ∙ ap answer seen, asked.1 ∙ ap is_withdrawn seen)
