-- ===== src/Forward/Address.antt =====
-- The host and the port of a `host:port` text: the address helpers of go-backend/service/forward.go.
use flux_panel_v.Base.{
  ℕ, ◌+◌, ◌-◌, ◌*◌, ◌%◌, Bool, false, ◌&&◌, none, some, [], ◌∷◌, Text, codes, is_empty, has_prefix,
  trim_space, index, last_index, take, drop, length, ltb, ◌==◌, if◌then◌else◌,
}
use flux_panel_v.Gost.{not_digit}

-- The bit pattern of -1.
abbrev pub no_port : ℕ
no_port = 18446744073709551615

-- The part before the last colon, unless that colon comes first.
unfoldable pub host_before_colon : Text → Text
host_before_colon address = elim (last_index b':' address) [
  | none ↦ address
  | some i ↦ if ltb 0 i then take i address else address
]

unfoldable pub host_of : Text → Text
unfolding host_before_colon
host_of address =
    if has_prefix address (codes "[")
    then elim (index b']' address) [
      | none ↦ host_before_colon address
      | some i ↦ if ltb 1 i then take (i - 1) (drop 1 address) else host_before_colon address
    ]
    else host_before_colon address

unfoldable pub extract_ip_from_address : Text → Text
unfolding host_of
extract_ip_from_address address =
    if is_empty (trim_space address) then [] else host_of (trim_space address)

-- The loop over the digits, in int64.
unfoldable pub parse_port : ℕ → Text → ℕ
parse_port port [] = port
parse_port port (c ∷ s) =
    let rest = parse_port ((port * 10 + (c - 48)) % 18446744073709551616) s in
    if not_digit c then no_port else rest

unfoldable pub port_after_colon : Text → ℕ
unfolding parse_port
port_after_colon address = elim (last_index b':' address) [
  | none ↦ no_port
  | some i ↦
      if ltb 0 i && ltb (i + 1) (length address)
      then parse_port 0 (drop (i + 1) address)
      else no_port
]

abbrev pub is_colon : Text → Bool
is_colon [] = false
is_colon (c ∷ s) = c == b':'

unfoldable pub port_of : Text → ℕ
unfolding port_after_colon
port_of address =
    if has_prefix address (codes "[")
    then elim (index b']' address) [
      | none ↦ port_after_colon address
      | some i ↦
          if ltb 1 i && is_colon (drop (i + 1) address)
          then parse_port 0 (drop (i + 2) address)
          else port_after_colon address
    ]
    else port_after_colon address

unfoldable pub extract_port_from_address : Text → ℕ
unfolding port_of
extract_port_from_address address =
    if is_empty (trim_space address) then no_port else port_of (trim_space address)
