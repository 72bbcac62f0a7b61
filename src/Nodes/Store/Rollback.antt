-- ===== src/Nodes/Store/Rollback.antt =====
-- What a change of the store leaves in memory, with and without success on the disk.
use xray_checker_tg_bot.Base.{
  Text, Bool, Option, none, some, ◌≡◌, ◌≢◌, arith, eqt_iff, Option-cases, inl, inr, ◌++◌, refl,
}
use xray_checker_tg_bot.Base.Dict.{lookup}
use xray_checker_tg_bot.Base.Dict.Laws.{
  lookup-insert, lookup-insert_self, lookup-insert_same, lookup-insert-erase, lookup-erase-insert,
}
use xray_checker_tg_bot.Nodes.Settings.{NodeSettings}
use xray_checker_tg_bot.Nodes.Store.{
  NodeRecord, NodesStore, StoreError, token_hash_prefix, set_settings, delete, save,
}

-- Both stores hold the same record under every name.
abbrev pub SameRecords : NodesStore → NodesStore → Type 0
SameRecords s t = (j : Text) → lookup j s.records ≡ lookup j t.records

-- A SetSettings that fails, on an unknown node or on the disk, leaves every record as it was.
pub set_settings-rollback :
    (saved : Bool) (name : Text) (ns : Option NodeSettings) (s : NodesStore) {e : StoreError}
    → (set_settings saved name ns s).1 ≡ some e
    → SameRecords (set_settings saved name ns s).0 s
unfolding set_settings
set_settings-rollback saved name ns s h j = elim (Option-cases (lookup name s.records)) [
  | inl missing ↦ ground arith
  | inr (rec, found) ↦ ground (arith, lookup-insert_same name j rec s.records)
]

-- A Delete that fails leaves every record as it was.
pub delete-rollback :
    (saved : Bool) (name : Text) (s : NodesStore) {e : StoreError}
    → (delete saved name s).1 ≡ some e
    → SameRecords (delete saved name s).0 s
unfolding delete
delete-rollback saved name s h j = elim (Option-cases (lookup name s.records)) [
  | inl missing ↦ ground arith
  | inr (rec, found) ↦ ground (arith, lookup-insert-erase name j rec s.records)
]

-- The overrides of a record, if there is one.
abbrev pub overrides : Option NodeRecord → Option NodeSettings
overrides none = none
overrides (some rec) = rec.settings

module _ (hash_token : Text → Text) where
  -- A Save that fails leaves every record as it was.
  pub save-rollback :
      (saved : Bool) (name token : Text) (s : NodesStore) {e : StoreError}
      → (save hash_token saved name token s).1 ≡ some e
      → SameRecords (save hash_token saved name token s).0 s
  unfolding save
  save-rollback saved name token s h j =
      let fresh : NodeRecord = record {
        token_hash = token_hash_prefix ++ hash_token token;
        settings = none;
      } in
      elim (Option-cases (lookup name s.records)) [
        | inl missing ↦ ground (arith, lookup-erase-insert name j fresh s.records)
        | inr (rec, found) ↦ ground (arith, lookup-insert_same name j rec s.records)
      ]

  -- A Save that succeeds stores the hashed token under the name, keeps the overrides that the node
  -- had, and touches no other node.
  pub save_lem :
      (saved : Bool) (name token : Text) (s : NodesStore)
      → (save hash_token saved name token s).1 ≡ none
      → (new : NodeRecord) × (lookup name (save hash_token saved name token s).0.records ≡ some new)
        × (new.token_hash ≡ token_hash_prefix ++ hash_token token)
        × (new.settings ≡ overrides (lookup name s.records))
        × ((j : Text)
            → name ≢ j
            → lookup j (save hash_token saved name token s).0.records ≡ lookup j s.records)
  unfolding save
  save_lem saved name token s h =
      let hash = token_hash_prefix ++ hash_token token in
      let fresh : NodeRecord = record { token_hash = hash; settings = none } in
      elim (Option-cases (lookup name s.records)) [
        | inl missing ↦ (
          fresh,
          ground (arith, lookup-insert_self name fresh s.records),
          refl,
          ground arith,
          λ j ne. ground (arith, lookup-insert name j fresh s.records, eqt_iff name j),
        )
        | inr (rec, found) ↦ (
          record rec { token_hash = hash },
          ground (arith, lookup-insert_self name (record rec { token_hash = hash }) s.records),
          refl,
          ground arith,
          λ j ne. ground (
            arith,
            lookup-insert name j (record rec { token_hash = hash }) s.records,
            eqt_iff name j,
          ),
        )
      ]
