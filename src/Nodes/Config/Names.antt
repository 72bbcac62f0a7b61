-- ===== src/Nodes/Config/Names.antt =====
-- What ParseNodes promises of the list that it accepts.
use xray_checker_tg_bot.Base.{
  ℕ, ◌+◌, Text, eqt, eqt_iff, contains, Distinct, All, ◌≡◌, refl, false, List, [], ◌∷◌, map, ok,
  arith, Result-cases, inl, inr,
}
use xray_checker_tg_bot.Nodes.Config.{NodeConfig, check_parts, parse_entry, parse_from, parse_nodes}

-- None of the configurations has a name among `names` or a token among `tokens`.
abbrev Fresh : List Text → List Text → NodeConfig → Type 0
Fresh names tokens c = (contains c.name names ≡ false) × (contains c.token tokens ≡ false)

-- Both parts are there.
abbrev pub IsComplete : NodeConfig → Type 0
IsComplete c = (eqt c.name [] ≡ false) × (eqt c.token [] ≡ false)

check_parts-IsComplete :
    (i : ℕ) (parts : List Text) {c : NodeConfig} → check_parts i parts ≡ ok c → IsComplete c
unfolding check_parts
check_parts-IsComplete i (a ∷ b ∷ []) h = ground arith
check_parts-IsComplete i _ h = ground arith

parse_entry-IsComplete :
    (i : ℕ) (entry : Text) {c : NodeConfig} → parse_entry i entry ≡ ok c → IsComplete c
unfolding parse_entry
parse_entry-IsComplete i entry h = check_parts-IsComplete i _ h

-- What the loop promises of its result: complete entries, new names and tokens, none twice.
record IsParsed (names tokens : List Text) (cs : List NodeConfig) : Type 0 where
  complete : All IsComplete cs
  fresh : All (Fresh names tokens) cs
  distinct_names : Distinct (map (λ c. c.name) cs)
  distinct_tokens : Distinct (map (λ c. c.token) cs)

-- A list that is fresh for more names is fresh for fewer, and does not hold the ones that went.
Fresh-shrink :
    (n t : Text) (names tokens : List Text) (cs : List NodeConfig)
    → All (Fresh (n ∷ names) (t ∷ tokens)) cs
    → All (Fresh names tokens) cs
      × (contains n (map (λ c. c.name) cs) ≡ false)
      × (contains t (map (λ c. c.token) cs) ≡ false)
unfolding contains
Fresh-shrink n t names tokens [] h = (tt, refl, refl)
Fresh-shrink n t names tokens (c ∷ cs) h = ground (
  arith,
  Fresh-shrink n t names tokens cs,
  eqt_iff n c.name,
  eqt_iff c.name n,
  eqt_iff t c.token,
  eqt_iff c.token t,
)

parse_from-IsParsed :
    (i : ℕ) (names tokens entries : List Text) {cs : List NodeConfig}
    → parse_from i names tokens entries ≡ ok cs
    → IsParsed names tokens cs
unfolding parse_from
parse_from-IsParsed i names tokens [] h = ground arith
parse_from-IsParsed i names tokens (e ∷ es) {cs} h = elim (Result-cases (parse_entry i e)) [
  | inr (x, failed) ↦ ground arith
  | inl (c, found) ↦
      elim (Result-cases (parse_from (i + 1) (c.name ∷ names) (c.token ∷ tokens) es)) [
        | inr (x, failed) ↦ ground arith
        | inl (ds, rest) ↦
            let ih = parse_from-IsParsed (i + 1) (c.name ∷ names) (c.token ∷ tokens) es rest in
            let shrunk = Fresh-shrink c.name c.token names tokens ds ih.fresh in
            let e : c ∷ ds ≡ cs = ground arith in
            rw (← e) (record {
              complete = (parse_entry-IsComplete i _ found, ih.complete);
              fresh = (ground arith, shrunk.0);
              distinct_names = (shrunk.1, ih.distinct_names);
              distinct_tokens = (shrunk.2, ih.distinct_tokens);
            })
      ]
]

-- An accepted NODES list has no empty name or token, no name twice and no token twice.
pub parse_nodes_lem :
    (raw : List Text) {cs : List NodeConfig}
    → parse_nodes raw ≡ ok cs
    → All IsComplete cs × Distinct (map (λ c. c.name) cs) × Distinct (map (λ c. c.token) cs)
unfolding parse_nodes
parse_nodes_lem raw h =
    let parsed = parse_from-IsParsed 1 [] [] raw h in
    (parsed.complete, parsed.distinct_names, parsed.distinct_tokens)
