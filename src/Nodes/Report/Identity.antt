-- ===== src/Nodes/Report/Identity.antt =====
-- The identities of remote proxies on the master.
use xray_checker_tg_bot.Base.{
  Text, ◌≡◌, ◌≢◌, refl, arith, true, false, List, [], ◌∷◌, ◌++◌, map, has_char, has_char-append,
  contains, eqt_iff, All, ℕ,
}
use xray_checker_tg_bot.Checker.Types.{ProxyMetric}
use xray_checker_tg_bot.Nodes.Report.{
  ReportProxy, ReportPayload, namespaced, metric_of, proxy_metrics_from_report,
}

has_char_middle : (c : ℕ) (s t : Text) → has_char c (s ++ (c ∷ t)) ≡ true
unfolding has_char
has_char_middle c s t = ground (arith, has_char-append c s (c ∷ t))

slash_splits :
    (a b s t : Text)
    → has_char b'/' s ≡ false
    → has_char b'/' t ≡ false
    → a ++ (b'/' ∷ s) ≡ b ++ (b'/' ∷ t)
    → (a ≡ b) × (s ≡ t)
slash_splits [] [] s t hs ht e = ground arith
slash_splits [] (y ∷ b) s t hs ht e = ground (arith, has_char_middle b'/' b t)
slash_splits (x ∷ a) [] s t hs ht e = ground (arith, has_char_middle b'/' a s)
slash_splits (x ∷ a) (y ∷ b) s t hs ht e = ground (arith, slash_splits a b s t hs ht)

-- Where stable identities hold no slash, two namespaced identities are equal only for one proxy of
-- one node.
pub namespaced-injective :
    (a b s t : Text)
    → has_char b'/' s ≡ false
    → has_char b'/' t ≡ false
    → namespaced a s ≡ namespaced b t
    → (a ≡ b) × (s ≡ t)
unfolding namespaced
namespaced-injective a b s t hs ht e = slash_splits a b s t hs ht e

abbrev pub ids : List ProxyMetric → List Text
ids = map (λ pm. pm.stable_id)

-- No proxy of the report has a slash in its stable identity.
abbrev pub HasPlainIds : ReportPayload → Type 0
HasPlainIds p = All (λ rp. has_char b'/' rp.stable_id ≡ false) p.proxies

foreign_id :
    (a b asn s : Text) (rps : List ReportProxy)
    → a ≢ b
    → has_char b'/' s ≡ false
    → All (λ rp. has_char b'/' rp.stable_id ≡ false) rps
    → contains (namespaced a s) (ids (map (metric_of b asn) rps)) ≡ false
unfolding contains metric_of
foreign_id a b asn s [] ne hs h = refl
foreign_id a b asn s (rp ∷ rps) ne hs h = ground (
  arith,
  eqt_iff (namespaced b rp.stable_id) (namespaced a s),
  namespaced-injective b a rp.stable_id s h.0 hs,
  foreign_id a b asn s rps ne hs h.1,
)

foreign_ids :
    (a b asn_a asn_b : Text) (ps qs : List ReportProxy)
    → a ≢ b
    → All (λ rp. has_char b'/' rp.stable_id ≡ false) ps
    → All (λ rp. has_char b'/' rp.stable_id ≡ false) qs
    → All
        (λ pm. contains pm.stable_id (ids (map (metric_of b asn_b) qs)) ≡ false)
        (map (metric_of a asn_a) ps)
unfolding metric_of
foreign_ids a b asn_a asn_b [] qs ne h k = tt
foreign_ids a b asn_a asn_b (p ∷ ps) qs ne h k =
    (foreign_id a b asn_b p.stable_id qs ne h.0 k, foreign_ids a b asn_a asn_b ps qs ne h.1 k)

-- The proxies of two different nodes, whose stable identities hold no slash, have no identity in
-- common on the master.
pub proxy_metrics_from_report-disjoint :
    (a b asn_a asn_b : Text) (p q : ReportPayload)
    → a ≢ b
    → HasPlainIds p
    → HasPlainIds q
    → All
        (λ pm. contains pm.stable_id (ids (proxy_metrics_from_report b asn_b q)) ≡ false)
        (proxy_metrics_from_report a asn_a p)
unfolding proxy_metrics_from_report
proxy_metrics_from_report-disjoint a b asn_a asn_b p q ne h k =
    foreign_ids a b asn_a asn_b p.proxies q.proxies ne h k
