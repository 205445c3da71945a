-- ===== src/Gost/Chains.antt =====
-- The chain that the services of a tunnel forward name.
use flux_panel_v.Base.{
  ℕ, zero, suc, ◌+◌, ◌/◌, ◌%◌, ◌≤◌, ◌≡◌, ◌≢◌, refl, ap, inl, inr, true, false, none, some, List, [],
  ◌∷◌, ◌++◌, Text, codes, arith, All, any, length, leb, ltb, ◌==◌, last_index, take, drop,
  digits_onto, show_nat, Bool-cases,
}
use flux_panel_v.Model.{Tunnel}
use flux_panel_v.Gost.{
  ServiceArgs, ServiceConfig, not_digit, chain_base, suffixed, build_service_config,
  build_service_config_with_ip, services_per_ip, build_services, build_chain_data, split_listen_ips,
}

abbrev IsDigit : ℕ → Type 0
IsDigit c = (48 ≤ c) × (c ≤ 57)

digits_onto-digits :
    (fuel n : ℕ) (acc : Text) → All IsDigit acc → All IsDigit (digits_onto fuel n acc)
unfolding digits_onto
digits_onto-digits zero n acc h = h
digits_onto-digits (suc fuel) n acc h = elim (Bool-cases (ltb n 10)) [
  | inl small ↦ rw small ((omega arith, ground arith), h)
  | inr more ↦
      rw more
        (digits_onto-digits fuel (n / 10) ((48 + n % 10) ∷ acc) ((omega arith, omega arith), h))
]

show_nat-digits : (n : ℕ) → All IsDigit (show_nat n)
unfolding show_nat
show_nat-digits n = digits_onto-digits 20 n [] tt

any-not_digit : (s : Text) → All IsDigit s → any not_digit s ≡ false
any-not_digit [] h = refl
any-not_digit (c ∷ s) h = ground (arith, any-not_digit s h.1)

last_index-digits : (s : Text) → All IsDigit s → last_index b'_' s ≡ none
unfolding last_index
last_index-digits [] h = refl
last_index-digits (c ∷ s) h = ground (arith, last_index-digits s h.1)

last_index-append :
    (name s : Text) → All IsDigit s → last_index b'_' (name ++ (b'_' ∷ s)) ≡ some (length name)
unfolding last_index
last_index-append [] s h = rw (last_index-digits s h) refl
last_index-append (c ∷ name) s h = rw (last_index-append name s h) refl

take-append : (name s : Text) → take (length name) (name ++ s) ≡ name
unfolding take
take-append [] s = refl
take-append (c ∷ name) s = ap (◌∷◌ c) (take-append name s)

drop-append : (name : Text) (c : ℕ) (s : Text) → drop (suc (length name)) (name ++ (c ∷ s)) ≡ s
unfolding drop
drop-append [] c s = refl
drop-append (d ∷ name) c s = drop-append name c s

-- Cutting a numeric suffix off again gives the name back.
chain_base-suffixed : (name : Text) (i : ℕ) → name ≢ [] → chain_base (suffixed name i) ≡ name
unfolding chain_base
chain_base-suffixed [] i h = absurd (h refl)
chain_base-suffixed (c ∷ name) i h =
    let digits = show_nat-digits i in
    let e : length (c ∷ name) + 1 ≡ suc (length (c ∷ name)) = omega arith in
    let pos_length : ltb 0 (length (c ∷ name)) ≡ true = ground arith in
    rw (last_index-append (c ∷ name) (show_nat i) digits, chain_base)
      (rw
        (
          e,
          drop-append (c ∷ name) b'_' (show_nat i),
          any-not_digit (show_nat i) digits,
          pos_length,
          take-append (c ∷ name) (b'_' ∷ show_nat i),
        )
        refl)

abbrev Names : Text → ServiceConfig → Type 0
Names name s = s.handler_chain ≡ some (name ++ codes "_chains")

services_per_ip-Names :
    (name : Text) (a : ServiceArgs) (i : ℕ) (ips : List Text)
    → name ≢ []
    → a.fwd_type == 1 ≡ false
    → All (Names name) (services_per_ip name a i ips)
unfolding services_per_ip build_service_config_with_ip
services_per_ip-Names name a i [] h r = tt
services_per_ip-Names name a i (ip ∷ ips) h r =
    rw (chain_base-suffixed name i h, r)
      (refl, (refl, services_per_ip-Names name a (i + 1) ips h r))

build_services-Names :
    (name : Text) (a : ServiceArgs) (t : Tunnel)
    → name ≢ []
    → a.fwd_type == 1 ≡ false
    → All (Names name) (build_services name a t)
unfolding build_services build_service_config
build_services-Names name a t h r =
    elim (Bool-cases (leb (length (split_listen_ips t.tcp_listen_addr)) 1)) [
      | inl single ↦ rw (single, r) (refl, (refl, tt))
      | inr many ↦ rw many (services_per_ip-Names name a 0 (split_listen_ips t.tcp_listen_addr) h r)
    ]

-- Every service of a forward that is not direct hands over to the chain that `buildChainData` makes
-- for the same name, on one listen address and on several, though the builder for several addresses
-- reads the chain's name back from the service's.
pub build_services-chain :
    (name : Text) (a : ServiceArgs) (t : Tunnel) (remote_addr protocol interface : Text)
    → name ≢ []
    → a.fwd_type ≢ 1
    → All
        (λ s. s.handler_chain ≡ some (build_chain_data name remote_addr protocol interface).name)
        (build_services name a t)
unfolding build_chain_data
build_services-chain name a t remote_addr protocol interface h ne =
    build_services-Names name a t h (ground arith)
