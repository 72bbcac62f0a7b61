-- ===== src/Nodes/Config/Print.antt =====
-- ParseNodes on lists that are printed in its format.
use xray_checker_tg_bot.Base.{
  ℕ, ◌+◌, Text, eqt_iff, contains, Distinct, All, ◌≡◌, refl, false, List, [], ◌∷◌, ◌++◌, map,
  has_char, ok, arith, split, cut_plain, cut-append, trim_space,
}
use xray_checker_tg_bot.Nodes.Config.{NodeConfig, check_parts, parse_entry, parse_from, parse_nodes}
use xray_checker_tg_bot.Nodes.Config.Names.{IsComplete}

-- `name|token`, as the operator writes it
unfoldable pub print_entry : NodeConfig → Text
print_entry c = c.name ++ (b'|' ∷ c.token)

-- A configuration that an entry can spell: complete, without surrounding white space or a `|`.
pub record IsPlain (c : NodeConfig) : Type 0 where
  pub complete : IsComplete c
  pub name_trimmed : trim_space c.name ≡ c.name
  pub token_trimmed : trim_space c.token ≡ c.token
  pub entry_trimmed : trim_space (print_entry c) ≡ print_entry c
  pub name_plain : has_char b'|' c.name ≡ false
  pub token_plain : has_char b'|' c.token ≡ false

pub split-append :
    (sep : ℕ) (s t : Text)
    → has_char sep s ≡ false
    → has_char sep t ≡ false
    → split sep (s ++ (sep ∷ t)) ≡ s ∷ t ∷ []
unfolding split
split-append sep s t h k = ground (arith, cut-append sep s t h, cut_plain sep t k)

parse_entry-print_entry :
    (i : ℕ) (c : NodeConfig) → IsPlain c → parse_entry i (print_entry c) ≡ ok c
unfolding parse_entry print_entry check_parts
parse_entry-print_entry i c p =
    rw
      (
        p.entry_trimmed,
        split-append b'|' c.name c.token p.name_plain p.token_plain,
        p.name_trimmed,
        p.token_trimmed,
      )
      (ground arith)

-- What is in neither list is not in the longer list.
fresh-cons :
    (f : NodeConfig → Text) (n : Text) (seen : List Text) (cs : List NodeConfig)
    → contains n (map f cs) ≡ false
    → All (λ c. contains (f c) seen ≡ false) cs
    → All (λ c. contains (f c) (n ∷ seen) ≡ false) cs
unfolding contains
fresh-cons f n seen [] h k = tt
fresh-cons f n seen (c ∷ cs) h k =
    (ground (arith, eqt_iff n (f c), eqt_iff (f c) n), fresh-cons f n seen cs (ground arith) k.1)

parse_from-print_entry :
    (i : ℕ) (names tokens : List Text) (cs : List NodeConfig)
    → All IsPlain cs
    → Distinct (map (λ c. c.name) cs)
    → Distinct (map (λ c. c.token) cs)
    → All (λ c. contains c.name names ≡ false) cs
    → All (λ c. contains c.token tokens ≡ false) cs
    → parse_from i names tokens (map print_entry cs) ≡ ok cs
unfolding parse_from
parse_from-print_entry i names tokens [] p dn dt fn ft = refl
parse_from-print_entry i names tokens (c ∷ cs) p dn dt fn ft = ground (
  arith,
  parse_entry-print_entry i c p.0,
  parse_from-print_entry (i + 1) (c.name ∷ names) (c.token ∷ tokens) cs p.1 dn.1 dt.1
      (fresh-cons (λ c. c.name) c.name names cs dn.0 fn.1)
      (fresh-cons (λ c. c.token) c.token tokens cs dt.0 ft.1),
)

nothing_seen :
    (f : NodeConfig → Text) (cs : List NodeConfig) → All (λ c. contains (f c) [] ≡ false) cs
unfolding contains
nothing_seen f [] = tt
nothing_seen f (c ∷ cs) = (refl, nothing_seen f cs)

-- The entries of any list of plain configurations with distinct names and distinct tokens are
-- accepted and read back as that list.
pub parse_nodes-print_entry :
    (cs : List NodeConfig)
    → All IsPlain cs
    → Distinct (map (λ c. c.name) cs)
    → Distinct (map (λ c. c.token) cs)
    → parse_nodes (map print_entry cs) ≡ ok cs
unfolding parse_nodes
parse_nodes-print_entry cs p dn dt =
    parse_from-print_entry 1 [] [] cs p dn dt (nothing_seen (λ c. c.name) cs)
      (nothing_seen (λ c. c.token) cs)
