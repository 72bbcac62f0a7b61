-- ===== src/Nodes/Store.antt =====
-- nodes/nodes_store.go: the registrations that are kept on disk, with hashed tokens and the
-- overrides of each node. `hash_token` is the SHA-256 of the standard library in hexadecimal.
-- What `persistLocked` finds on the disk is an argument, `saved`: did the write succeed? With an
-- empty path nothing is written. The file is decoded by encoding/json, the legacy file without settings
-- too: `load` starts from the decoded map, in which a record is `none` where the JSON has null.
pub mod Rollback
pub mod Migrate
use xray_checker_tg_bot.Base.{
  Text, codes, Bool, true, false, ◌||◌, Option, none, some, List, [], ◌∷◌, ◌++◌, Result, ok, err,
  eqt, has_prefix, trim_prefix, if◌then◌else◌, is_some, map,
}
use xray_checker_tg_bot.Base.Dict.{Dict, lookup, insert, erase}
use xray_checker_tg_bot.Nodes.Config.{NodeConfig}
use xray_checker_tg_bot.Nodes.Settings.{NodeSettings, clone}

-- nodeRecord
pub record NodeRecord : Type 0 where
  pub token_hash : Text
  pub settings : Option NodeSettings

-- NodesStore
pub record NodesStore : Type 0 where
  pub path : Text
  pub records : Dict NodeRecord

pub data StoreError : Type 0 where
  unknown_node persist_failed : StoreError

abbrev pub token_hash_prefix : Text
token_hash_prefix = codes "sha256:"

-- persistLocked: does it return nil?
abbrev pub persist : Text → Bool → Bool
persist path saved = eqt path [] || saved

-- All
unfoldable pub all : NodesStore → List NodeConfig
all s =
    map (λ e. record { name = e.0; token = trim_prefix e.1.token_hash token_hash_prefix }) s.records

-- Settings: the overrides, and whether there are any
unfoldable pub settings : NodesStore → Text → Option NodeSettings × Bool
settings s name = elim (lookup name s.records) [
  | none ↦ (none, false)
  | some rec ↦ (clone rec.settings, is_some rec.settings)
]

-- SetSettings: the store after it, and the error
unfoldable pub set_settings :
    Bool → Text → Option NodeSettings → NodesStore → NodesStore × Option StoreError
set_settings saved name ns s = elim (lookup name s.records) [
  | none ↦ (s, some unknown_node)
  | some rec ↦
      if persist s.path saved
      then (record s { records = insert name (record rec { settings = clone ns }) s.records }, none)
      else (
        record s { records = insert name (record rec { settings = rec.settings }) s.records },
        some persist_failed,
      )
]

-- Delete
unfoldable pub delete : Bool → Text → NodesStore → NodesStore × Option StoreError
delete saved name s = elim (lookup name s.records) [
  | none ↦ (s, none)
  | some old ↦
      if persist s.path saved
      then (record s { records = erase name s.records }, none)
      else (record s { records = insert name old (erase name s.records) }, some persist_failed)
]

module _ (hash_token : Text → Text) where
  -- Save
  unfoldable pub save : Bool → Text → Text → NodesStore → NodesStore × Option StoreError
  save saved name token s =
      let hash = token_hash_prefix ++ hash_token token in
      elim (lookup name s.records) [
        | some rec ↦
            if persist s.path saved
            then (
              record s { records = insert name (record rec { token_hash = hash }) s.records },
              none,
            )
            else (
              record s {
                records = insert name (record rec { token_hash = rec.token_hash }) s.records;
              },
              some persist_failed,
            )
        | none ↦
            if persist s.path saved
            then (
              record s {
                records = insert name (record { token_hash = hash; settings = none }) s.records;
              },
              none,
            )
            else (
              record s {
                records =
                    erase name
                      (insert name (record { token_hash = hash; settings = none }) s.records);
              },
              some persist_failed,
            )
      ]

  -- the body of the loop in NewNodesStore: a token without the prefix is plain text.
  unfoldable pub migrate_record : NodeRecord → NodeRecord
  migrate_record rec =
      if has_prefix rec.token_hash token_hash_prefix
      then rec
      else record rec { token_hash = token_hash_prefix ++ hash_token rec.token_hash }

  -- the loop over the records; none is the nil dereference at a record that is null
  unfoldable pub migrate : Dict (Option NodeRecord) → Option (Dict NodeRecord)
  unfolding migrate_record
  migrate [] = some []
  migrate ((name, none) ∷ m) = none
  migrate ((name, some rec) ∷ m) = elim (migrate m) [
    | none ↦ none
    | some records ↦ some ((name, migrate_record rec) ∷ records)
  ]

  -- NewNodesStore on the decoded file, which an empty path does not have; none is a panic
  unfoldable pub load : Text → Dict (Option NodeRecord) → Option NodesStore
  unfolding migrate
  load path decoded =
      if eqt path [] then some (record { path = path; records = [] }) else elim (migrate decoded) [
        | none ↦ none
        | some records ↦ some (record { path = path; records = records })
      ]
