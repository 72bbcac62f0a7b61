-- ===== src/Tests/Stores.antt =====
-- The theorems on the stores of the nodes (nodes/nodes_store.go, nodes/subs_store.go).
use xray_checker_tg_bot.Base.{
  Text, codes, true, none, some, [], ◌∷◌, ◌++◌, ◌≡◌, ◌≢◌, refl, eqt, contains, has_prefix,
  Bool-cases, inl, inr,
}
use xray_checker_tg_bot.Base.Dict.{lookup}
use xray_checker_tg_bot.Nodes.Store.{
  NodeRecord, NodesStore, token_hash_prefix, save, migrate_record, migrate, load,
}
use xray_checker_tg_bot.Nodes.Store.Rollback.{overrides, save_lem}
use xray_checker_tg_bot.Nodes.Store.Migrate.{reread, all_omitted, load-load}
use xray_checker_tg_bot.Nodes.SubsStore.{NodeSubsStore, get}
use xray_checker_tg_bot.Nodes.SubsStore.Laws.{IsDistinct}

-- A stand-in for SHA-256.
abbrev hash : Text → Text
hash t = b'#' ∷ t

abbrev one : NodesStore
one = record {
  path = codes "nodes.json";
  records = (codes "fi", record { token_hash = codes "sha256:#s1"; settings = none }) ∷ [];
}

save_lem_example :
    (new : NodeRecord) × (lookup
        (codes "fi")
        (save hash true (codes "fi") (codes "s2") one).0.records
      ≡ some new)
    × (new.token_hash ≡ token_hash_prefix ++ hash (codes "s2"))
    × (new.settings ≡ overrides (lookup (codes "fi") one.records))
    × ((j : Text)
        → codes "fi" ≢ j
        → lookup j (save hash true (codes "fi") (codes "s2") one).0.records ≡ lookup j one.records)
unfolding save lookup eqt
save_lem_example = save_lem hash true (codes "fi") (codes "s2") one refl

abbrev plain : NodeRecord
plain = record { token_hash = codes "s1"; settings = none }

load-load_example :
    load hash (codes "n") (reread one.records)
    ≡ some (record one { path = codes "n"; records = all_omitted one.records })
unfolding load migrate migrate_record has_prefix eqt
load-load_example =
    load-load hash (codes "n") ((codes "fi", some (record plain { token_hash = codes "s1" })) ∷ [])
      {s = record one { path = codes "n" }} reread (λ m. refl) refl

abbrev subs : NodeSubsStore
subs = record { path = codes "subs.json"; urls = (codes "fi", codes "https://a" ∷ []) ∷ [] }

subs-IsDistinct : IsDistinct subs
unfolding get lookup contains
subs-IsDistinct j = elim (Bool-cases (eqt (codes "fi") j)) [
  | inl own ↦ rw own (refl, tt)
  | inr other ↦ rw other tt
]
