-- ===== src/Subscription/Store/File.antt =====
-- subscription/manager.go: the file of a URLStore, as NewURLStore reads it and Restore writes it.
-- encoding/json is a parameter, and so are the bytes.
use xray_checker_tg_bot.Base.{
  Text, Bool, false, Option, none, some, List, [], ◌∷◌, Result, ok, err, eqt, if◌then◌else◌, ◌≡◌,
  refl,
}
use xray_checker_tg_bot.Base.Dict.{Dict}
use xray_checker_tg_bot.Subscription.Store.{UrlStore}

-- storeFile; a nil slice is `none`, written as null
pub record StoreFile : Type 0 where
  pub dynamic : Option (List Text)
  pub managed : Dict Bool

-- os.ReadFile
pub data FileRead (Bytes : Type 0) : Type 0 where
  absent unreadable : FileRead Bytes
  bytes : Bytes → FileRead Bytes

pub data LoadError : Type 0 where
  reading parsing : LoadError

-- the store that NewURLStore starts from
abbrev pub seed : List Text → Text → UrlStore
seed static path = record { path = path; static = static; dynamic = []; meta = []; managed = [] }

module _ {Bytes : Type 0} (decode : Bytes → Option StoreFile)
    (decode_list : Bytes → Option (List Text)) where
  -- the legacy format, a bare list
  unfoldable pub load_legacy : List Text → Text → Bytes → Result LoadError UrlStore
  load_legacy static path b = elim (decode_list b) [
    | none ↦ err parsing
    | some urls ↦ ok (record (seed static path) { dynamic = urls })
  ]

  -- NewURLStore
  unfoldable pub new_url_store : List Text → Text → FileRead Bytes → Result LoadError UrlStore
  unfolding load_legacy
  new_url_store static path file = if eqt path [] then ok (seed static path) else elim file [
    | absent ↦ ok (seed static path)
    | unreadable ↦ err reading
    | bytes b ↦ elim (decode b) [
      | none ↦ load_legacy static path b
      | some stored ↦ elim stored.dynamic [
        | none ↦ load_legacy static path b
        | some urls ↦ ok (record (seed static path) { dynamic = urls; managed = stored.managed })
      ]
    ]
  ]

-- `append([]string(nil), dynamic...)`: nil if there is nothing to append
unfoldable pub copy_slice : List Text → Option (List Text)
copy_slice [] = none
copy_slice (u ∷ urls) = some (u ∷ urls)

-- what Restore writes
unfoldable pub restored_file : List Text → Dict Bool → StoreFile
unfolding copy_slice
restored_file dynamic managed = record { dynamic = copy_slice dynamic; managed = managed }

module _ {Bytes : Type 0} (decode : Bytes → Option StoreFile)
    (decode_list : Bytes → Option (List Text)) where
  -- A store with a path that Restore wrote is read back with its run-time URLs and flags if it has such a
  -- URL; if it has none, NewURLStore refuses what Restore wrote. Of encoding/json: what was written is
  -- read back, and an object is no list.
  pub new_url_store-restored :
      (encode : StoreFile → Bytes)
      → ((f : StoreFile) → decode (encode f) ≡ some f)
      → ((f : StoreFile) → decode_list (encode f) ≡ none)
      → (static dynamic : List Text) (path : Text) (managed : Dict Bool) → eqt path [] ≡ false
      → new_url_store decode decode_list static path
          (bytes (encode (restored_file dynamic managed)))
        ≡ elim dynamic [
          | [] ↦ err parsing
          | u ∷ urls ↦ ok (record {
            path = path;
            static = static;
            dynamic = u ∷ urls;
            meta = [];
            managed = managed;
          })
        ]
  unfolding new_url_store restored_file
  new_url_store-restored encode read no_list static [] path managed h =
      let f = restored_file [] managed in rw (new_url_store, h, read f, load_legacy, no_list f) refl
  new_url_store-restored encode read no_list static (u ∷ urls) path managed h =
      let f = restored_file (u ∷ urls) managed in rw (new_url_store, h, read f) refl
