-- ===== src/Nodes/SubsStore.antt =====
-- nodes/subs_store.go: the subscriptions that the master wants each node to have. `saved` says
-- whether the write to the disk succeeded; decoding the file is encoding/json's.
pub mod Laws
use xray_checker_tg_bot.Base.{
  Text, codes, Bool, true, false, ◌||◌, Option, none, some, List, [], ◌∷◌, ◌++◌, Result, ok, err,
  eqt, has_prefix, trim_space, contains, remove_first, if◌then◌else◌, not, ◌&&◌,
}
use xray_checker_tg_bot.Base.Dict.{Dict, lookup, insert}

-- NodeSubsStore
pub record NodeSubsStore : Type 0 where
  pub path : Text
  pub urls : Dict (List Text)

pub data SubsError : Type 0 where
  bad_scheme persist_failed : SubsError

abbrev pub list_of : Option (List Text) → List Text
list_of none = []
list_of (some urls) = urls

-- Get; a missing node has no URLs
unfoldable pub get : NodeSubsStore → Text → List Text
get s node = list_of (lookup node s.urls)

abbrev pub is_http : Text → Bool
is_http u = has_prefix u (codes "http://") || has_prefix u (codes "https://")

abbrev pub persist : Text → Bool → Bool
persist path saved = eqt path [] || saved

-- Add: the store after it, and whether the URL is new
unfoldable pub add : Bool → Text → Text → NodeSubsStore → NodeSubsStore × Result SubsError Bool
unfolding get
add saved node raw s =
    let u = trim_space raw in
    if not (is_http u)
    then (s, err bad_scheme)
    else if contains u (get s node)
    then (s, ok false)
    else if persist s.path saved
    then (record s { urls = insert node (get s node ++ (u ∷ [])) s.urls }, ok true)
    else (record s { urls = insert node (get s node) s.urls }, err persist_failed)

-- Remove
unfoldable pub remove : Bool → Text → Text → NodeSubsStore → NodeSubsStore × Result SubsError Bool
unfolding get remove_first
remove saved node raw s =
    let u = trim_space raw in
    if not (contains u (get s node))
    then (s, ok false)
    else if persist s.path saved
    then (record s { urls = insert node (remove_first u (get s node)) s.urls }, ok true)
    else (record s { urls = insert node (get s node) s.urls }, err persist_failed)
