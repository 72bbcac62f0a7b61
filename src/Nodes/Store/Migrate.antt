-- ===== src/Nodes/Store/Migrate.antt =====
-- The migration of plain-text tokens in NewNodesStore, and what a store is after a restart.
use xray_checker_tg_bot.Base.{
  Text, ◌≡◌, refl, arith, true, Option, none, some, [], ◌∷◌, eqt, has_prefix, has_prefix-append,
  All, Bool-cases, Option-cases, inl, inr,
}
use xray_checker_tg_bot.Base.Dict.{Dict}
use xray_checker_tg_bot.Nodes.Settings.{clone}
use xray_checker_tg_bot.Nodes.Store.{
  NodeRecord, NodesStore, token_hash_prefix, migrate_record, migrate, load,
}

-- The records that encoding/json reads back from what persistLocked wrote: `omitempty` leaves an empty
-- list of targets out, and every other field is kept.
unfoldable pub omit_empty : NodeRecord → NodeRecord
omit_empty rec = record rec { settings = clone rec.settings }

unfoldable pub reread : Dict NodeRecord → Dict (Option NodeRecord)
reread [] = []
reread ((name, rec) ∷ m) = (name, some (omit_empty rec)) ∷ reread m

unfoldable pub all_omitted : Dict NodeRecord → Dict NodeRecord
all_omitted [] = []
all_omitted ((name, rec) ∷ m) = (name, omit_empty rec) ∷ all_omitted m

-- Every token is a hash.
abbrev AllHashed : Dict NodeRecord → Type 0
AllHashed = All (λ e. has_prefix e.1.token_hash token_hash_prefix ≡ true)

module _ (hash_token : Text → Text) where
  migrate_record_hashed :
      (rec : NodeRecord)
      → has_prefix (migrate_record hash_token rec).token_hash token_hash_prefix ≡ true
  unfolding migrate_record
  migrate_record_hashed rec =
      ground (arith, has_prefix-append token_hash_prefix (hash_token rec.token_hash))

  migrate-AllHashed :
      (decoded : Dict (Option NodeRecord)) {m : Dict NodeRecord}
      → migrate hash_token decoded ≡ some m
      → AllHashed m
  unfolding migrate
  migrate-AllHashed [] {m} h = let e : [] ≡ m = ground arith in rw (← e) tt
  migrate-AllHashed ((name, none) ∷ decoded) h = absurd (ground arith)
  migrate-AllHashed ((name, some rec) ∷ decoded) {m} h =
      elim (Option-cases (migrate hash_token decoded)) [
        | inl bad ↦ absurd (ground arith)
        | inr (records, good) ↦
            let e : (name, migrate_record hash_token rec) ∷ records ≡ m = ground arith in
            rw (← e) (migrate_record_hashed rec, migrate-AllHashed decoded {m = records} good)
      ]

  migrate-reread :
      (m : Dict NodeRecord) → AllHashed m → migrate hash_token (reread m) ≡ some (all_omitted m)
  unfolding migrate migrate_record reread all_omitted omit_empty
  migrate-reread [] h = refl
  migrate-reread ((name, rec) ∷ m) h = ground (arith, h.0, migrate-reread m h.1)

  -- A store that was loaded from a file, is written and is loaded again holds the same names, tokens
  -- and overrides, without a panic: no token is hashed twice. Only an empty list of targets, which the
  -- file leaves out, is lost. The condition on `json` is that decoding what was encoded gives every
  -- field but those that `omitempty` leaves out.
  pub load-load :
      (path : Text) (decoded : Dict (Option NodeRecord)) {s : NodesStore}
      (json : Dict NodeRecord → Dict (Option NodeRecord))
      → ((m : Dict NodeRecord) → json m ≡ reread m)
      → load hash_token path decoded ≡ some s
      → load hash_token path (json s.records) ≡ some (record s { records = all_omitted s.records })
  unfolding load all_omitted
  load-load path decoded {s} json law h = elim (Bool-cases (eqt path [])) [
    | inl memory ↦ ground arith
    | inr file ↦ elim (Option-cases (migrate hash_token decoded)) [
      | inl bad ↦ ground arith
      | inr (records, good) ↦ ground (
        arith,
        law records,
        migrate-reread records (migrate-AllHashed decoded {m = records} good),
      )
    ]
  ]
