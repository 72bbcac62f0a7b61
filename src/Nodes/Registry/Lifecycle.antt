-- ===== src/Nodes/Registry/Lifecycle.antt =====
-- A node from its registration to its first report.
use xray_checker_tg_bot.Base.{
  Text, ℕ, Bool, true, false, Option, none, some, [], ◌∷◌, ◌++◌, ◌≡◌, ◌≢◌, refl, arith, eqt_iff,
  eqt_refl, trim_space, has_prefix-append, drop_prefix-append, length, length-append, leb,
}
use xray_checker_tg_bot.Base.Dict.{Dict, lookup, insert, erase}
use xray_checker_tg_bot.Base.Dict.Laws.{lookup-insert_self}
use xray_checker_tg_bot.Nodes.Config.{NodeConfig}
use xray_checker_tg_bot.Nodes.Report.{ReportPayload, proxy_metrics_from_report}
use xray_checker_tg_bot.Nodes.Registry.{
  NodeState, up, Registry, Request, Response, accepted, bearer, new_node, asn_of, register_node,
  ingest, reported, handle_report, authenticate, match_hash,
}

match_hash-erase :
    (hash : Text) (m : Dict Text) (found : Option Text)
    → match_hash hash (erase hash m) found ≡ found
unfolding match_hash erase
match_hash-erase hash [] found = refl
match_hash-erase hash ((j, v) ∷ m) found = ground (arith, match_hash-erase hash m found)

pub match_hash-insert :
    (hash name : Text) (m : Dict Text) → match_hash hash (insert hash name m) none ≡ some name
unfolding match_hash insert
match_hash-insert hash name m = ground (arith, eqt_refl hash, match_hash-erase hash m (some name))

length-pos : (s : Text) → s ≢ [] → leb (length s) 0 ≡ false
length-pos [] h = absurd (h refl)
length-pos (c ∷ s) h = ground arith

-- Was the report accepted?
abbrev pub is_accepted : Response → Bool
is_accepted (accepted a) = true
is_accepted _ = false

module _ (hash_token : Text → Text) where
  -- A bearer token, whole, is looked up by its hash.
  pub authenticate-bearer :
      (token : Text) (r : Registry)
      → token ≢ []
      → authenticate hash_token (bearer ++ token) r ≡ match_hash (hash_token token) r.by_token none
  unfolding authenticate
  authenticate-bearer token r ne = ground (
    arith,
    has_prefix-append bearer token,
    drop_prefix-append bearer token,
    length-append bearer token,
    length-pos token ne,
  )

  -- A successful registration puts a node with the hashed token under the trimmed name, and the
  -- hash into the index.
  register_node_registered :
      (saved : Bool) (cfg : NodeConfig) (r : Registry)
      → (register_node hash_token saved cfg r).1.error ≡ none
      → (let hash = hash_token (trim_space cfg.token) in
          let name = trim_space cfg.name in
          let after = (register_node hash_token saved cfg r).0 in
          (trim_space cfg.token ≢ [])
          × (after.nodes ≡ insert name (new_node (record { name = name; token = hash })) r.nodes)
          × (after.by_token ≡ insert hash name r.by_token))
  unfolding register_node
  register_node_registered saved cfg r h =
      (ground (arith, eqt_iff (trim_space cfg.token) []), ground arith, ground arith)

  -- The first report of a node that was registered with success, sent with the token of the
  -- registration, is accepted. The node is up then, and its snapshot is what the report says,
  -- under the name of the node.
  pub handle_report-register_node :
      (saved : Bool) (cfg : NodeConfig) (r : Registry) (now : ℕ) (p : ReportPayload)
      → (register_node hash_token saved cfg r).1.error ≡ none
      → (let name = trim_space cfg.name in
          let registered = (register_node hash_token saved cfg r).0 in
          let req : Request = record {
            is_post = true;
            authorization = bearer ++ trim_space cfg.token;
            body = some p;
          } in
          (st : NodeState) × (lookup name (handle_report hash_token now req registered).0.nodes
            ≡ some st)
          × (is_accepted (handle_report hash_token now req registered).1 ≡ true)
          × (st.status ≡ up)
          × (st.last_report ≡ now)
          × (st.snapshot ≡ proxy_metrics_from_report name (asn_of registered p) p))
  unfolding handle_report ingest reported
  handle_report-register_node saved cfg r now p h =
      let name = trim_space cfg.name in
      let token = trim_space cfg.token in
      let hash = hash_token token in
      let registered = (register_node hash_token saved cfg r).0 in
      let (there, nodes, index) = register_node_registered saved cfg r h in
      let st = new_node (record { name = name; token = hash }) in
      let st' = reported now name registered p st in
      let found : lookup name registered.nodes ≡ some st =
        rw nodes (lookup-insert_self name st r.nodes) in
      let known : authenticate hash_token (bearer ++ token) registered ≡ some name = ground (
        arith,
        authenticate-bearer token registered there,
        index,
        match_hash-insert hash name r.by_token,
      ) in
      (
        st',
        ground (arith, found, known, lookup-insert_self name st' registered.nodes),
        ground (arith, found, known),
        refl,
        refl,
        refl,
      )
