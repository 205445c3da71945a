-- ===== src/Forward/Ssrf/Hosts.antt =====
-- Which remote addresses an ordinary user may forward to.
use flux_panel_v.Base.{
  sym, ◌∙◌, ◌⊎◌, true, ◌≤◌, Bool-cases, true-false, ℕ, ◌≡◌, ◌≢◌, refl, inl, inr, ◌↔◌, false, none,
  some, List, [], ◌∷◌, arith, All, any, Text, split, trim_space, Option-cases,
}
use flux_panel_v.Store.{ok, panic}
use flux_panel_v.Forward.Address.{extract_ip_from_address}
use flux_panel_v.Forward.Ports.Usage.{or_iff}
use flux_panel_v.Forward.Ssrf.{
  v4, v6, is_loopback_v6, Ip, Net, in_private_range, is_private_ip, resolves_private, check_host,
  check_hosts, validate_remote_addr,
}

-- The refused ranges: loopback (127.0.0.0 to 127.255.255.255 and ::1), private use (10.0.0.0 to
-- 10.255.255.255, 172.16.0.0 to 172.31.255.255, 192.168.0.0 to 192.168.255.255, fc00:: to fdff::) and
-- link-local (169.254.0.0 to 169.254.255.255, fe80:: to febf::).
abbrev pub IsLoopback6 : List ℕ → Type 0
IsLoopback6 [] = ⊥
IsLoopback6 (a ∷ []) = a ≡ 1
IsLoopback6 (a ∷ b ∷ rest) = (a ≡ 0) × IsLoopback6 (b ∷ rest)

abbrev pub IsInternal : Ip → Type 0
IsInternal (v4 a b c d) =
    (a ≡ 127)
    ⊎ ((a ≡ 10)
        ⊎ (((a ≡ 172) × (16 ≤ b) × (b ≤ 31)) ⊎ (((a ≡ 192) × (b ≡ 168)) ⊎ ((a ≡ 169) × (b ≡ 254)))))
IsInternal (v6 (a ∷ b ∷ rest)) =
    IsLoopback6 (a ∷ b ∷ rest) ⊎ (((252 ≤ a) × (a ≤ 253)) ⊎ ((a ≡ 254) × (128 ≤ b) × (b ≤ 191)))
IsInternal (v6 _) = ⊥

loopback_iff : (bytes : List ℕ) → (is_loopback_v6 bytes ≡ true) ↔ IsLoopback6 bytes
loopback_iff [] = (λ e. true-false (sym e), λ h. absurd h)
loopback_iff (a ∷ []) = (λ e. ground arith, λ h. ground arith)
loopback_iff (a ∷ b ∷ rest) =
    let k = loopback_iff (b ∷ rest) in
    (λ e. (ground arith, k.0 (ground arith)), λ h. let e = k.1 h.1 in ground arith)

in_private_range_iff : (ip : Ip) → (in_private_range ip ≡ true) ↔ IsInternal ip
unfolding in_private_range
in_private_range_iff (v4 a b c d) = (λ e. ground arith, λ h. ground arith)
in_private_range_iff (v6 []) = (λ e. true-false (sym e), λ h. absurd h)
in_private_range_iff (v6 (a ∷ [])) = (λ e. true-false (sym e), λ h. absurd h)
in_private_range_iff (v6 (a ∷ b ∷ rest)) =
    or_iff _ _ _ _ (loopback_iff (a ∷ b ∷ rest)) (λ e. ground arith, λ h. ground arith)

-- An address that is outside the ranges as it is written and read again.
abbrev pub IsOutside : Net → Ip → Type 0
IsOutside net ip = (read : Ip) → net.parse_ip (net.show_ip ip) ≡ some read → ¬ IsInternal read

-- A host that leads into none of the refused ranges: no host at all, a literal outside them, a name
-- that does not resolve, or one none of whose addresses is in the ranges when it is written and read
-- again.
pub data IsAllowed (net : Net) (host : Text) : Type 0 where
  no_host : host ≡ [] → IsAllowed net host
  literal : {ip : Ip} → net.parse_ip host ≡ some ip → ¬ IsInternal ip → IsAllowed net host
  unresolved : net.parse_ip host ≡ none → net.lookup_ip host ≡ none → IsAllowed net host
  resolved :
      {ips : List Ip}
      → net.parse_ip host ≡ none
      → net.lookup_ip host ≡ some ips
      → All (IsOutside net) ips
      → IsAllowed net host

not-IsInternal : (ip : Ip) → in_private_range ip ≡ false → ¬ IsInternal ip
not-IsInternal ip e = λ h. true-false (sym ((in_private_range_iff ip).1 h) ∙ e)

not_private : (ip : Ip) → ¬ IsInternal ip → in_private_range ip ≡ false
not_private ip out = elim (Bool-cases (in_private_range ip)) [
  | inl hit ↦ absurd (out ((in_private_range_iff ip).0 hit))
  | inr missed ↦ missed
]

IsOutside-of : (net : Net) (ip : Ip) → is_private_ip net (net.show_ip ip) ≡ false → IsOutside net ip
unfolding is_private_ip
IsOutside-of net ip e = λ read found. not-IsInternal read (rw (found, is_private_ip) at e)

private_of_outside :
    (net : Net) (ip : Ip) → IsOutside net ip → is_private_ip net (net.show_ip ip) ≡ false
unfolding is_private_ip
private_of_outside net ip out = elim (Option-cases (net.parse_ip (net.show_ip ip))) [
  | inl unread ↦ rw (unread, is_private_ip) refl
  | inr (read, found) ↦ rw (found, is_private_ip) (not_private read (out read found))
]

none_private :
    (net : Net) (ips : List Ip)
    → any (λ ip. is_private_ip net (net.show_ip ip)) ips ≡ false
    → All (IsOutside net) ips
none_private net [] e = tt
none_private net (ip ∷ ips) e =
    (IsOutside-of net ip (ground arith), none_private net ips (ground arith))

any_none :
    (net : Net) (ips : List Ip)
    → All (IsOutside net) ips
    → any (λ ip. is_private_ip net (net.show_ip ip)) ips ≡ false
any_none net [] h = refl
any_none net (ip ∷ ips) h = ground (arith, private_of_outside net ip h.0, any_none net ips h.1)

module _ (net : Net) where
  IsAllowed-of :
      (host : Text)
      → is_private_ip net host ≡ false
      → resolves_private net host ≡ false
      → IsAllowed net host
  IsAllowed-of host a b = elim (Option-cases (net.parse_ip host)) [
    | inr (ip, e) ↦ literal e (not-IsInternal ip (unfold is_private_ip in ground arith))
    | inl e ↦ elim (Option-cases (net.lookup_ip host)) [
      | inl f ↦ unresolved e f
      | inr (ips, f) ↦ resolved e f (none_private net ips (unfold resolves_private in ground arith))
    ]
  ]

  private_of_literal :
      (host : Text) (ip : Ip)
      → net.parse_ip host ≡ some ip
      → ¬ IsInternal ip
      → (is_private_ip net host ≡ false) × (resolves_private net host ≡ false)
  unfolding is_private_ip resolves_private
  private_of_literal host ip e f = let outside = not_private ip f in (ground arith, ground arith)

  private_of_unresolved :
      (host : Text)
      → net.parse_ip host ≡ none
      → net.lookup_ip host ≡ none
      → (is_private_ip net host ≡ false) × (resolves_private net host ≡ false)
  unfolding is_private_ip resolves_private
  private_of_unresolved host e f = (ground arith, ground arith)

  private_of_resolved :
      (host : Text) (ips : List Ip)
      → net.parse_ip host ≡ none
      → net.lookup_ip host ≡ some ips
      → All (IsOutside net) ips
      → (is_private_ip net host ≡ false) × (resolves_private net host ≡ false)
  unfolding resolves_private
  private_of_resolved host ips e f h =
      let g = any_none net ips h in
      (unfold is_private_ip in ground arith, rw (e, resolves_private) (rw (f, resolves_private) g))

  check_of :
      (host : Text)
      → (is_private_ip net host ≡ false) × (resolves_private net host ≡ false)
      → check_host net host ≡ ok tt
  unfolding check_host
  check_of host h = ground arith

  IsAllowed-of_check : (host : Text) → check_host net host ≡ ok tt → IsAllowed net host
  unfolding check_host
  IsAllowed-of_check [] e = no_host refl
  IsAllowed-of_check (c ∷ s) e = IsAllowed-of (c ∷ s) (ground arith) (ground arith)

  check_of_allowed : (host : Text) → IsAllowed net host → check_host net host ≡ ok tt
  check_of_allowed host (no_host e) = rw e (unfold check_host in refl)
  check_of_allowed host (literal {ip} e f) = check_of host (private_of_literal host ip e f)
  check_of_allowed host (unresolved e f) = check_of host (private_of_unresolved host e f)
  check_of_allowed host (resolved {ips} e f h) = check_of host (private_of_resolved host ips e f h)

  -- The host of one address of the list.
  abbrev pub host_at : Text → Text
  host_at address = extract_ip_from_address (trim_space address)

  hosts_of_check :
      (addresses : List Text)
      → check_hosts net addresses ≡ ok tt
      → All (λ a. IsAllowed net (host_at a)) addresses
  unfolding check_hosts
  hosts_of_check [] e = tt
  hosts_of_check (a ∷ rest) e =
      (IsAllowed-of_check (host_at a) (ground arith), hosts_of_check rest (ground arith))

  check_of_hosts :
      (addresses : List Text)
      → All (λ a. IsAllowed net (host_at a)) addresses
      → check_hosts net addresses ≡ ok tt
  unfolding check_hosts
  check_of_hosts [] h = refl
  check_of_hosts (a ∷ rest) h =
      let e = check_of_allowed (host_at a) h.0 in let r = check_of_hosts rest h.1 in ground arith

  -- `validateRemoteAddr` lets an ordinary user's address list through exactly when no address of it
  -- leads to loopback, a private or a link-local address, by the parser and the resolver as they
  -- answer: a literal is outside those ranges, and so is every address that a name resolves to. A name
  -- that does not resolve goes through, and so does an empty host.
  pub validate_remote_addr_iff :
      (remote_addr : Text) (role_id : ℕ)
      → role_id ≢ 0
      → (validate_remote_addr net remote_addr role_id ≡ ok tt)
        ↔ All (λ a. IsAllowed net (host_at a)) (split b',' remote_addr)
  unfolding validate_remote_addr
  validate_remote_addr_iff remote_addr role_id ordinary =
      (λ e. hosts_of_check _ (ground arith), λ h. let e = check_of_hosts _ h in ground arith)

  check_hosts-ne-panic : (addresses : List Text) → check_hosts net addresses ≢ panic
  unfolding check_hosts check_host
  check_hosts-ne-panic [] = λ e. cc
  check_hosts-ne-panic (a ∷ rest) = ground (arith, check_hosts-ne-panic rest)

  pub validate-ne-panic :
      (remote_addr : Text) (role_id : ℕ) → validate_remote_addr net remote_addr role_id ≢ panic
  unfolding validate_remote_addr
  validate-ne-panic remote_addr role_id =
      ground (arith, check_hosts-ne-panic (split b',' remote_addr))
