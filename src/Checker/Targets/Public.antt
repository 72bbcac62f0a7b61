-- ===== src/Checker/Targets/Public.antt =====
-- What package net documents of IPv4 addresses, and the blocks of addresses that are not public.
use xray_checker_tg_bot.Base.{
  Text, codes, ℕ, ◌+◌, ◌*◌, ◌/◌, ◌<◌, Bool, true, false, ◌||◌, ◌&&◌, Option, none, some, [], ◌∷◌,
  ◌++◌, eqt_refl, ap, leb, ◌==◌, ◌≡◌, ◌≢◌, arith, Option-cases, inl, inr,
}
use xray_checker_tg_bot.Checker.Targets.{
  Library, has_suffix, is_local, is_blocked_target_ip, is_blocked_host,
}

-- Packages net documents its tests of an IPv4 address by the first octets.
pub record IsDocumented {Ip : Type 0} (lib : Library Ip) : Type 0 where
  pub octets : (ip : Ip) {o : ℕ × ℕ × ℕ × ℕ} → lib.to4 ip ≡ some o → (o.0 < 256) × (o.1 < 256)
  pub loopback :
      (ip : Ip) {o : ℕ × ℕ × ℕ × ℕ} → lib.to4 ip ≡ some o → lib.is_loopback ip ≡ (o.0 == 127)
  pub private :
      (ip : Ip) {o : ℕ × ℕ × ℕ × ℕ}
      → lib.to4 ip ≡ some o
      → lib.is_private ip
        ≡ ((o.0 == 10) || ((o.0 == 172) && (o.1 / 16 == 1)) || ((o.0 == 192) && (o.1 == 168)))
  pub multicast :
      (ip : Ip) {o : ℕ × ℕ × ℕ × ℕ} → lib.to4 ip ≡ some o → lib.is_multicast ip ≡ (o.0 / 16 == 14)

-- The first two octets of an address as one number.
abbrev pub prefix16 : ℕ → ℕ → ℕ
prefix16 a b = a * 256 + b

abbrev pub within : ℕ → ℕ → ℕ → Bool
within lo hi n = leb lo n && leb n hi

-- The blocks 0/8, 10/8, 100.64/10, 127/8, 169.254/16, 172.16/12, 192.168/16 and 224/4.
unfoldable pub is_reserved : ℕ → Bool
is_reserved n =
    within 0 255 n
    || within 2560 2815 n
    || within 25664 25727 n
    || within 32512 32767 n
    || within 43518 43518 n
    || within 44048 44063 n
    || within 49320 49320 n
    || within 57344 61439 n

module _ {Ip : Type 0} (lib : Library Ip) where
  -- An IPv4 address outside the reserved blocks, or an IPv6 address that net calls neither loopback, nor
  -- private, nor link-local, nor unspecified.
  abbrev pub IsPublic : Ip → Option (ℕ × ℕ × ℕ × ℕ) → Type 0
  IsPublic ip (some o) = is_reserved (prefix16 o.0 o.1) ≡ false
  IsPublic ip none =
      (lib.is_loopback ip ≡ false)
      × (lib.is_private ip ≡ false)
      × (lib.is_link_local_unicast ip ≡ false)
      × (lib.is_link_local_multicast ip ≡ false)
      × (lib.is_unspecified ip ≡ false)

  -- A host name, or a public address.
  abbrev pub IsPublicHost : Option Ip → Type 0
  IsPublicHost none = Unit
  IsPublicHost (some ip) = IsPublic ip (lib.to4 ip)

  -- A host that is neither called localhost nor within .localhost or .local, and is no address that is
  -- not public.
  abbrev pub IsOutside : Text → Type 0
  IsOutside h =
      (lib.equal_fold h (codes "localhost") ≡ false)
      × ((p : Text) → lib.to_lower h ≢ p ++ codes ".localhost")
      × ((p : Text) → lib.to_lower h ≢ p ++ codes ".local")
      × IsPublicHost (lib.parse_ip h)

has_suffix-append : (p q : Text) → has_suffix (p ++ q) q ≡ true
unfolding has_suffix
has_suffix-append [] [] = eqt_refl []
has_suffix-append [] (c ∷ q) = ground (arith, eqt_refl (c ∷ q))
has_suffix-append (c ∷ p) q = ground (arith, has_suffix-append p q)

-- What has no suffix does not end in it.
no_suffix : (s p q : Text) → has_suffix s q ≡ false → s ≢ p ++ q
no_suffix s p q h e = let same = ap (λ t. has_suffix t q) e in ground (arith, has_suffix-append p q)

-- The tests of octets cover the reserved blocks.
octets-public :
    (a b : ℕ)
    → a < 256
    → b < 256
    → (a == 127) ≡ false
    → ((a == 10) || ((a == 172) && (b / 16 == 1)) || ((a == 192) && (b == 168))) ≡ false
    → (a / 16 == 14) ≡ false
    → (a == 0) ≡ false
    → ((a == 169) && (b == 254)) ≡ false
    → ((a == 100) && (b / 64 == 1)) ≡ false
    → is_reserved (prefix16 a b) ≡ false
unfolding is_reserved
octets-public a b ha hb loop priv multi zero_net link cgnat = ground arith

module _ {Ip : Type 0} (lib : Library Ip) (doc : IsDocumented lib) where
  address-IsPublic : (ip : Ip) → is_blocked_target_ip lib ip ≡ false → IsPublic lib ip (lib.to4 ip)
  unfolding is_blocked_target_ip
  address-IsPublic ip h = elim (Option-cases (lib.to4 ip)) [
    | inl v6 ↦ rw v6 (ground arith, ground arith, ground arith, ground arith, ground arith)
    | inr (o, v4) ↦
        let (ha, hb) = doc.octets ip {o = o} v4 in
        rw v4 (
          octets-public o.0 o.1 ha hb (ground (arith, doc.loopback ip {o = o} v4))
            (ground (arith, doc.private ip {o = o} v4))
            (ground (arith, doc.multicast ip {o = o} v4)) (ground arith) (ground arith)
            (ground arith))
  ]

  pub host-IsOutside :
      (h : Text) → is_local lib h ≡ false → is_blocked_host lib h ≡ false → IsOutside lib h
  unfolding is_local is_blocked_host
  host-IsOutside h local blocked = (
    ground arith,
    λ p. no_suffix (lib.to_lower h) p (codes ".localhost") (ground arith),
    λ p. no_suffix (lib.to_lower h) p (codes ".local") (ground arith),
    elim (Option-cases (lib.parse_ip h)) [
      | inl name ↦ rw name tt
      | inr (ip, address) ↦ rw address (address-IsPublic ip (ground arith))
    ],
  )
