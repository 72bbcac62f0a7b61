-- ===== src/Nodes/Registry/Defects.antt =====
-- Two places where the registry's maps and what the operator is told part.
use xray_checker_tg_bot.Base.{
  Text, ℕ, Bool, true, false, Option, none, some, [], ◌∷◌, ◌++◌, ◌≡◌, ◌≢◌, arith, eqt, eqt_iff,
  refl, sym, ◌∙◌, ap, Bool-cases, inl, inr, trim_space,
}
use xray_checker_tg_bot.Base.Dict.{Dict, lookup, insert, erase}
use xray_checker_tg_bot.Base.Dict.Laws.{lookup-insert_self, lookup-erase_self}
use xray_checker_tg_bot.Nodes.Config.{NodeConfig}
use xray_checker_tg_bot.Nodes.Store
use xray_checker_tg_bot.Nodes.Store.{NodesStore, StoreError, persist_failed, save}
use xray_checker_tg_bot.Nodes.Report.{ReportPayload}
use xray_checker_tg_bot.Nodes.Registry.{
  NodeState, Registry, store_failed, Request, panic, bearer, new_node, in_store, register_node,
  remove_node, ingest, handle_report, authenticate, match_hash, node_exists,
}
use xray_checker_tg_bot.Nodes.Registry.Lifecycle.{authenticate-bearer, match_hash-insert}

in_store_keeps :
    (change : NodesStore → NodesStore × Option StoreError) (r : Registry)
    → ((in_store change r).0.nodes ≡ r.nodes) × ((in_store change r).0.by_token ≡ r.by_token)
unfolding in_store
in_store_keeps change r = (ground arith, ground arith)

remove_node_removed :
    (saved : Bool) (name : Text) (r : Registry) (st : NodeState)
    → trim_space name ≡ name
    → lookup name r.nodes ≡ some st
    → ((remove_node saved name r).0.nodes ≡ erase name r.nodes)
      × ((remove_node saved name r).0.by_token ≡ erase st.cfg.token r.by_token)
unfolding remove_node
remove_node_removed saved name r st trimmed found =
    let bare = record r { by_token = erase st.cfg.token r.by_token; nodes = erase name r.nodes } in
    let kept = in_store_keeps (Store.delete saved name) bare in
    (ground (arith, trimmed, found, kept), ground (arith, trimmed, found, kept))

-- A removal between the authentication of a report and its update: the update of HandleReport then
-- dereferences a missing node, whatever registry it was and whether or not the store was written. The
-- name has no surrounding white space.
pub ingest-remove_node :
    (saved : Bool) (now : ℕ) (name : Text) (p : ReportPayload) (r : Registry) {st : NodeState}
    → trim_space name ≡ name
    → lookup name r.nodes ≡ some st
    → (ingest now name p (remove_node saved name r).0).1 ≡ panic
unfolding ingest
ingest-remove_node saved now name p r trimmed found =
    ground
      (arith, (remove_node_removed saved name r _ trimmed found).0, lookup-erase_self name r.nodes)

match_hash-erase_other :
    (hash k : Text) (m : Dict Text) (found : Option Text)
    → hash ≢ k
    → match_hash hash (erase k m) found ≡ match_hash hash m found
unfolding match_hash erase
match_hash-erase_other hash k [] found ne = refl
match_hash-erase_other hash k ((j, v) ∷ m) found ne = elim (Bool-cases (eqt j k)) [
  | inl same ↦
      let other : eqt j hash ≡ false = ground (arith, eqt_iff j k, eqt_iff j hash) in
      ground (arith, match_hash-erase_other hash k m found ne)
  | inr here ↦
      ground (
        arith,
        match_hash-erase_other hash k m found ne,
        match_hash-erase_other hash k m (some v) ne,
      )
]

module _ (hash_token : Text → Text) where
  missing_node_panics :
      (now : ℕ) (token name : Text) (p : ReportPayload) (r : Registry)
      → token ≢ []
      → match_hash (hash_token token) r.by_token none ≡ some name
      → lookup name r.nodes ≡ none
      → (handle_report hash_token now
          (record { is_post = true; authorization = bearer ++ token; body = some p })
          r).1
        ≡ panic
  unfolding handle_report ingest
  missing_node_panics now token name p r ne known missing =
      ground (arith, authenticate-bearer hash_token token r ne, known, missing)

  -- A node whose state has the raw token, and whose reports with that token are authenticated, is removed,
  -- with or without success on the disk: the next report with the token makes the handler dereference a
  -- missing node. The name has no surrounding white space, the token is not empty and not its own hash.
  pub removed_node_panics :
      (name token : Text) (r : Registry) (saved : Bool) (now : ℕ) (p : ReportPayload)
      {st : NodeState}
      → trim_space name ≡ name
      → token ≢ []
      → hash_token token ≢ token
      → lookup name r.nodes ≡ some st
      → st.cfg.token ≡ token
      → authenticate hash_token (bearer ++ token) r ≡ some name
      → (let req : Request = record {
        is_post = true;
        authorization = bearer ++ token;
        body = some p;
      } in
          (handle_report hash_token now req (remove_node saved name r).0).1 ≡ panic)
  removed_node_panics name token r saved now p {st} trimmed ne own found raw known =
      let after = (remove_node saved name r).0 in
      let removed = remove_node_removed saved name r st trimmed found in
      let index : after.by_token ≡ erase token r.by_token =
        removed.1 ∙ ap (λ k. erase k r.by_token) raw in
      missing_node_panics now token name p after ne
        (ap (λ m. match_hash (hash_token token) m none) index
          ∙ match_hash-erase_other (hash_token token) token r.by_token none own
          ∙ sym (authenticate-bearer hash_token token r ne)
          ∙ known)
        (ap (lookup name) removed.0 ∙ lookup-erase_self name r.nodes)

  -- A registration that the store could not write is reported as an error, and the node is
  -- registered all the same: it is in the map, and its token is known.
  pub register_node_half_done :
      (cfg : NodeConfig) (r : Registry) (store : NodesStore)
      → trim_space cfg.name ≢ []
      → trim_space cfg.token ≢ []
      → lookup (trim_space cfg.name) r.nodes ≡ none
      → lookup (hash_token (trim_space cfg.token)) r.by_token ≡ none
      → r.nodes_store ≡ some store
      → store.path ≢ []
      → (let after = register_node hash_token false cfg r in
          (after.1.error ≡ some (store_failed persist_failed))
          × (node_exists after.0 (trim_space cfg.name) ≡ true)
          × (authenticate hash_token (bearer ++ trim_space cfg.token) after.0
              ≡ some (trim_space cfg.name)))
  unfolding register_node in_store node_exists save
  register_node_half_done cfg r store hn ht free new has_store on_disk =
      let name = trim_space cfg.name in
      let token = trim_space cfg.token in
      let hash = hash_token token in
      let after = (register_node hash_token false cfg r).0 in
      let index : after.by_token ≡ insert hash name r.by_token =
        ground (arith, eqt_iff name [], eqt_iff token [], eqt_iff store.path []) in
      (
        ground (arith, eqt_iff name [], eqt_iff token [], eqt_iff store.path []),
        ground (
          arith,
          eqt_iff name [],
          eqt_iff token [],
          lookup-insert_self name (new_node (record { name = name; token = hash })) r.nodes,
        ),
        ground (
          arith,
          authenticate-bearer hash_token token after ht,
          index,
          match_hash-insert hash name r.by_token,
        ),
      )
