-- ===== src/Forward/Ssrf.antt =====
-- The check that a forward of an ordinary user does not point into a private network.
pub mod Hosts
use flux_panel_v.Base.{
  ℕ, ◌/◌, Bool, true, false, ◌&&◌, ◌||◌, Option, none, some, List, [], ◌∷◌, Text, split, trim_space,
  is_empty, any, ◌==◌, if◌then◌else◌,
}
use flux_panel_v.Store.{Result, ok, err, Notice, notice_text, bind_result}
use flux_panel_v.Forward.{is_admin}
use flux_panel_v.Forward.Address.{extract_ip_from_address}

-- An address as `net.IP.To4` sees it: the four bytes of an IPv4 address, mapped ones included, or
-- sixteen others.
pub data Ip : Type 0 where
  v4 : ℕ → ℕ → ℕ → ℕ → Ip
  v6 : List ℕ → Ip

-- Go's resolver and parser: `net.ParseIP`, `net.IP.String` and `net.LookupIP`.
pub record Net : Type 0 where
  pub parse_ip : Text → Option Ip
  pub show_ip : Ip → Text
  pub lookup_ip : Text → Option (List Ip)

abbrev pub is_loopback_v6 : List ℕ → Bool
is_loopback_v6 [] = false
is_loopback_v6 (x ∷ []) = x == 1
is_loopback_v6 (x ∷ y ∷ r) = x == 0 && is_loopback_v6 (y ∷ r)

-- ::1/128, fc00::/7 and fe80::/10
abbrev pub is_private_v6 : List ℕ → Bool
is_private_v6 [] = false
is_private_v6 (a ∷ []) = false
is_private_v6 (a ∷ b ∷ rest) =
    is_loopback_v6 (a ∷ b ∷ rest) || (a / 2 == 126 || (a == 254 && b / 64 == 2))

-- The ranges of `privateRanges`.
unfoldable pub in_private_range : Ip → Bool
in_private_range (v4 a b c d) =
    a == 127
    || (a == 10
        || ((a == 172 && b / 16 == 1) || ((a == 192 && b == 168) || (a == 169 && b == 254))))
in_private_range (v6 bytes) = is_private_v6 bytes

module _ (net : Net) where
  unfoldable pub is_private_ip : Text → Bool
  is_private_ip s = elim (net.parse_ip s) [ none ↦ false | some ip ↦ in_private_range ip ]

  -- Whether the name behind a host that is no literal resolves to a private address.
  unfoldable pub resolves_private : Text → Bool
  unfolding is_private_ip
  resolves_private host = elim (net.parse_ip host) [
    | some ip ↦ false
    | none ↦ elim (net.lookup_ip host) [
      | none ↦ false
      | some ips ↦ any (λ ip. is_private_ip (net.show_ip ip)) ips
    ]
  ]

  -- The text of the refusal names the host.
  unfoldable pub check_host : Text → Result (Unit {0})
  unfolding resolves_private
  check_host host =
      if is_empty host
      then ok tt
      else if is_private_ip host || resolves_private host
      then err (notice_text Notice.private_address host)
      else ok tt

  unfoldable pub check_hosts : List Text → Result (Unit {0})
  check_hosts [] = ok tt
  check_hosts (a ∷ as') =
      bind_result (check_host (extract_ip_from_address (trim_space a))) λ _. check_hosts as'

  unfoldable pub validate_remote_addr : Text → ℕ → Result (Unit {0})
  unfolding check_hosts
  validate_remote_addr remote_addr role_id =
      if is_admin role_id then ok tt else check_hosts (split b',' remote_addr)
