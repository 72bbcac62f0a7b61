-- ===== src/Nodes/Registry/Index.antt =====
-- The token index of the registry and the nodes that it names.
use xray_checker_tg_bot.Base.{
  Text, Bool, Option, none, some, is_some, List, [], ◌∷◌, ◌≡◌, ◌≢◌, refl, arith, eqt, eqt_iff, All,
  Bool-cases, Option-cases, inl, inr, trim_space, ◌||◌,
}
use xray_checker_tg_bot.Base.Dict.{Dict, lookup, insert, erase}
use xray_checker_tg_bot.Base.Dict.Laws.{lookup-insert, lookup-insert_self, lookup-erase}
use xray_checker_tg_bot.Nodes.Config.{NodeConfig}
use xray_checker_tg_bot.Nodes.Registry.{
  NodeState, Registry, new_node, add_stored, set_nodes_store, in_store, register_node, remove_node,
}
use xray_checker_tg_bot.Nodes.Registry.Health.{map_nodes}
use xray_checker_tg_bot.Nodes.Registry.Sweep.{lookup-map_nodes}
use mathlib.Core.List.{foldl}
use xray_checker_tg_bot.Nodes.Store
use xray_checker_tg_bot.Nodes.Store.{NodesStore, StoreError}

-- The entry names a node whose stored token is the indexed one.
pub record Indexed (nodes : Dict NodeState) (hash name : Text) : Type 0 where
  pub state : NodeState
  pub known : lookup name nodes ≡ some state
  pub own : state.cfg.token ≡ hash

-- Every entry of the token index does.
abbrev pub IsIndexed : Registry → Type 0
IsIndexed r = All (λ e. Indexed r.nodes e.0 e.1) r.by_token

abbrev pub AllIndexed : Dict NodeState → Dict Text → Type 0
AllIndexed nodes = All (λ e. Indexed nodes e.0 e.1)

-- The index survives a change of the nodes under which its entries survive, all but those of the
-- token that is erased.
AllIndexed-erase :
    (nodes nodes' : Dict NodeState) (k : Text) (m : Dict Text)
    → ((hash name : Text) → Indexed nodes hash name → hash ≢ k → Indexed nodes' hash name)
    → AllIndexed nodes m
    → AllIndexed nodes' (erase k m)
unfolding erase
AllIndexed-erase nodes nodes' k [] f h = tt
AllIndexed-erase nodes nodes' k ((j, v) ∷ m) f h = elim (Bool-cases (eqt j k)) [
  | inl e ↦ rw e (AllIndexed-erase nodes nodes' k m f h.1)
  | inr e ↦
      rw e
        (f j v h.0 (λ p. ground (arith, eqt_iff j k, p)), AllIndexed-erase nodes nodes' k m f h.1)
]

pub AllIndexed-nodes :
    (nodes nodes' : Dict NodeState) (m : Dict Text)
    → ((hash name : Text) → Indexed nodes hash name → Indexed nodes' hash name)
    → AllIndexed nodes m
    → AllIndexed nodes' m
AllIndexed-nodes nodes nodes' [] f h = tt
AllIndexed-nodes nodes nodes' (e ∷ m) f h = (f e.0 e.1 h.0, AllIndexed-nodes nodes nodes' m f h.1)

-- A new name does not touch the entries of the others.
Indexed-insert_new :
    (nodes : Dict NodeState) (name : Text) (st : NodeState)
    → lookup name nodes ≡ none
    → (hash j : Text) → Indexed nodes hash j
    → Indexed (insert name st nodes) hash j
Indexed-insert_new nodes name st free hash j h = record {
  state = h.state;
  known = ground (arith, h.known, lookup-insert name j st nodes, eqt_iff name j);
  own = h.own;
}

-- Nor does a node whose state changes and whose token stays.
pub Indexed-insert_same :
    (nodes : Dict NodeState) (name : Text) (old new : NodeState)
    → lookup name nodes ≡ some old
    → new.cfg ≡ old.cfg
    → (hash j : Text) → Indexed nodes hash j
    → Indexed (insert name new nodes) hash j
Indexed-insert_same nodes name old new found keep hash j h = elim (Bool-cases (eqt name j)) [
  | inl e ↦ record {
    state = new;
    known = ground (arith, lookup-insert name j new nodes);
    own = ground (arith, h.known, h.own, eqt_iff name j);
  }
  | inr e ↦ record {
    state = h.state;
    known = ground (arith, h.known, lookup-insert name j new nodes);
    own = h.own;
  }
]

-- A node that is removed takes only the entries of its own token with it.
Indexed-erase :
    (nodes : Dict NodeState) (name : Text) (st : NodeState)
    → lookup name nodes ≡ some st
    → (hash j : Text) → Indexed nodes hash j
    → hash ≢ st.cfg.token
    → Indexed (erase name nodes) hash j
Indexed-erase nodes name st found hash j h ne = elim (Bool-cases (eqt name j)) [
  | inl e ↦ absurd (ne (ground (arith, h.known, h.own, eqt_iff name j)))
  | inr e ↦ record {
    state = h.state;
    known = ground (arith, h.known, lookup-erase name j nodes);
    own = h.own;
  }
]

pub Indexed-map_nodes :
    (f : NodeState → NodeState) (nodes : Dict NodeState)
    → ((st : NodeState) → (f st).cfg ≡ st.cfg)
    → (hash j : Text) → Indexed nodes hash j
    → Indexed (map_nodes f nodes) hash j
Indexed-map_nodes f nodes keep hash j h = record {
  state = f h.state;
  known = lookup-map_nodes f j nodes {st = h.state} h.known;
  own = ground (arith, keep h.state, h.own);
}

new_node_cfg : (cfg : NodeConfig) → (new_node cfg).cfg.token ≡ cfg.token
unfolding new_node
new_node_cfg cfg = refl

in_store-IsIndexed :
    (change : NodesStore → NodesStore × Option StoreError) (r : Registry)
    → IsIndexed r
    → IsIndexed (in_store change r).0
unfolding in_store
in_store-IsIndexed change r h =
    let same : ((in_store change r).0.nodes ≡ r.nodes)
        × ((in_store change r).0.by_token ≡ r.by_token) =
      (ground arith, ground arith) in
    rw (same.0, same.1) h

pub remove_node-IsIndexed :
    (saved : Bool) (name : Text) (r : Registry)
    → IsIndexed r
    → IsIndexed (remove_node saved name r).0
unfolding remove_node
remove_node-IsIndexed saved raw_name r h =
    let name = trim_space raw_name in
    elim (Option-cases (lookup name r.nodes)) [
      | inl missing ↦ rw (missing, remove_node) h
      | inr (st, found) ↦
          rw (found, remove_node)
            (in_store-IsIndexed _
              (record r { by_token = erase st.cfg.token r.by_token; nodes = erase name r.nodes })
              (AllIndexed-erase r.nodes (erase name r.nodes) st.cfg.token r.by_token
                (Indexed-erase r.nodes name st found) h))
    ]

add_stored-IsIndexed :
    (r : Registry) (cfg : NodeConfig) → IsIndexed r → IsIndexed (add_stored r cfg)
unfolding add_stored insert
add_stored-IsIndexed r cfg h = elim (Option-cases (lookup cfg.name r.nodes)) [
  | inr (old, found) ↦ rw (found, add_stored) h
  | inl free ↦
      let st = new_node cfg in
      rw (free, add_stored)
        (
          record {
            state = st;
            known = lookup-insert_self cfg.name st r.nodes;
            own = new_node_cfg cfg;
          },
          AllIndexed-erase r.nodes (insert cfg.name st r.nodes) cfg.token r.by_token
              (λ k j i _. Indexed-insert_new r.nodes cfg.name st free k j i) h,
        )
]

stored-IsIndexed :
    (cfgs : List NodeConfig) (r : Registry) → IsIndexed r → IsIndexed (foldl add_stored r cfgs)
stored-IsIndexed [] r h = h
stored-IsIndexed (cfg ∷ cfgs) r h =
    stored-IsIndexed cfgs (add_stored r cfg) (add_stored-IsIndexed r cfg h)

pub set_nodes_store-IsIndexed :
    (store : Option NodesStore) (r : Registry) → IsIndexed r → IsIndexed (set_nodes_store store r)
unfolding set_nodes_store
set_nodes_store-IsIndexed none r h = h
set_nodes_store-IsIndexed (some store) r h =
    stored-IsIndexed (Store.all store) (record r { nodes_store = some store }) h

module _ (hash_token : Text → Text) where
  pub register_node-IsIndexed :
      (saved : Bool) (cfg : NodeConfig) (r : Registry)
      → IsIndexed r
      → IsIndexed (register_node hash_token saved cfg r).0
  unfolding register_node
  register_node-IsIndexed saved cfg r h =
      let name = trim_space cfg.name in
      let token = trim_space cfg.token in
      let hash = hash_token token in
      let st = new_node (record { name = name; token = hash }) in
      elim (Bool-cases (eqt name [] || eqt token [])) [
        | inl e ↦ rw e h
        | inr e ↦ rw e (elim (Option-cases (lookup name r.nodes)) [
          | inr (old, found) ↦ rw found h
          | inl free ↦ rw free (elim (Bool-cases (is_some (lookup hash r.by_token))) [
            | inl taken ↦ rw taken h
            | inr new ↦ rw new (
                in_store-IsIndexed _
                  (record r {
                    nodes = insert name st r.nodes;
                    by_token = insert hash name r.by_token;
                  })
                  (unfold insert in
                    (
                      record { state = st; known = lookup-insert_self name st r.nodes; own = refl },
                      AllIndexed-erase r.nodes (insert name st r.nodes) hash r.by_token
                          (λ k j i _. Indexed-insert_new r.nodes name st free k j i) h,
                    )))
          ])
        ])
      ]
