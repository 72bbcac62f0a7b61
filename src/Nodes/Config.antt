-- ===== src/Nodes/Config.antt =====
-- nodes/nodes.go: the NODES list of `name|token` entries.
pub mod Names
pub mod Print
use xray_checker_tg_bot.Base.{
  ℕ, ◌+◌, Text, eqt, split, trim_space, contains, ◌||◌, List, [], ◌∷◌, Result, ok, err, ◌>>=◌,
  if◌then◌else◌,
}

-- A reporting node's name and its bearer token.
pub record NodeConfig : Type 0 where
  pub name : Text
  pub token : Text

-- The errors of ParseNodes, with the number of the entry.
pub data NodesError : Type 0 where
  malformed empty_part duplicate_name duplicate_token : ℕ → NodesError

-- The checks on the parts of one entry.
unfoldable pub check_parts : ℕ → List Text → Result NodesError NodeConfig
check_parts i (a ∷ b ∷ []) =
    let name = trim_space a in
    let token = trim_space b in
    if eqt name [] || eqt token []
    then err (empty_part i)
    else ok (record { name = name; token = token })
check_parts i _ = err (malformed i)

unfoldable pub parse_entry : ℕ → Text → Result NodesError NodeConfig
unfolding check_parts
parse_entry i entry = check_parts i (split b'|' (trim_space entry))

-- The loop of ParseNodes: the number of the entry, the names and tokens seen, the entries left.
unfoldable pub parse_from :
    ℕ → List Text → List Text → List Text → Result NodesError (List NodeConfig)
parse_from i names tokens [] = ok []
parse_from i names tokens (entry ∷ entries) = do
  c ← parse_entry i entry
  let rest = parse_from (i + 1) (c.name ∷ names) (c.token ∷ tokens) entries
  if contains c.name names
      then err (duplicate_name i)
      else if contains c.token tokens
      then err (duplicate_token i)
      else (do cs ← rest; ok (c ∷ cs))

-- ParseNodes
unfoldable pub parse_nodes : List Text → Result NodesError (List NodeConfig)
unfolding parse_from parse_entry
parse_nodes raw = parse_from 1 [] [] raw
