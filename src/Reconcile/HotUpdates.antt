-- ===== src/Reconcile/HotUpdates.antt =====
-- The services that a hot update of a forward's targets names, and those that the forward has.
use flux_panel_v.Base.{
  ℕ, ◌+◌, ◌≤◌, ◌≡◌, ◌≢◌, refl, ap, inl, inr, Bool, true, false, List, [], ◌∷◌, ◌++◌, All, Text,
  codes, length, leb, map, show_nat, arith, Bool-cases,
}
use flux_panel_v.Model.{Tunnel}
use flux_panel_v.Gost.{
  ServiceArgs, split_listen_ips, build_services, names_per_ip, suffixed, pair_names,
  build_multi_ip_service_names,
}
use flux_panel_v.Gost.Names.{names_of, names-build_services}
use flux_panel_v.Store.{World, Sent, Command, Env, send}
use flux_panel_v.Nodes.{update_forwarder}
use flux_panel_v.Flow.Names.{length-show_nat-pos}

-- The names in a message.
unfoldable pub updated_names : List Sent → List Text
updated_names [] = []
updated_names (s ∷ ss) = elim s.command [ Command.update_forwarder us ↦ map (λ u. u.0) us | _ ↦ [] ]

length_++ : (s t : Text) → length (s ++ t) ≡ length s + length t
length_++ [] t = omega arith
length_++ (c ∷ s) t = ground (arith, length_++ s t)

-- No text of the one list is in the other.
abbrev pub Disjoint : List Text → List Text → Type 0
Disjoint asked own = All (λ s. All (λ u. u ≢ s) asked) own

-- What is named is what there is, in its order; or nothing of it.
unfoldable pub Names : Bool → List Text → List Text → Type 0
Names true asked own = asked ≡ own
Names false asked own = Disjoint asked own

longer_differs : (s t : Text) → length s + 1 ≤ length t → s ≢ t
longer_differs s t h e = let same = ap length e in absurd (omega arith)

suffixed_longer :
    (name end : Text) (i : ℕ) (s : Text)
    → length s ≤ length name + 4
    → length end ≡ 4
    → s ≢ suffixed name i ++ end
suffixed_longer name end i s h k =
    let outer = length_++ (name ++ (b'_' ∷ show_nat i)) end in
    let inner = length_++ name (b'_' ∷ show_nat i) in
    let digits = length-show_nat-pos i in longer_differs s (suffixed name i ++ end) (omega arith)

pair_names-longer :
    (name end : Text) (i : ℕ)
    → length end ≡ 4
    → All (λ u. u ≢ suffixed name i ++ end) (pair_names name)
pair_names-longer name end i k =
    let tcp_end = length_++ name (codes "_tcp") in
    let udp_end = length_++ name (codes "_udp") in
    (
      suffixed_longer name end i (name ++ codes "_tcp") (omega arith) k,
      (suffixed_longer name end i (name ++ codes "_udp") (omega arith) k, tt),
    )

names_per_ip-Disjoint :
    (name : Text) (i : ℕ) (ips : List Text) → Disjoint (pair_names name) (names_per_ip name i ips)
unfolding names_per_ip
names_per_ip-Disjoint name i [] = tt
names_per_ip-Disjoint name i (ip ∷ ips) = (
  pair_names-longer name (codes "_tcp") i refl,
  (pair_names-longer name (codes "_udp") i refl, names_per_ip-Disjoint name (i + 1) ips),
)

-- A hot update names exactly the services that the forward has on its entry node where these listen
-- on one address, and none of them where they listen on several.
pub update_forwarder-Names :
    (env : Env) (node : ℕ) (name remote_addr strategy : Text) (a : ServiceArgs) (t : Tunnel)
    (w : World)
    → Names
        (leb (length (split_listen_ips t.tcp_listen_addr)) 1)
        (updated_names (update_forwarder env node name remote_addr strategy w).1.sent)
        (names_of (build_services name a t))
unfolding update_forwarder send updated_names Names build_multi_ip_service_names
update_forwarder-Names env node name remote_addr strategy a t w =
    rw (names-build_services name a t)
      (elim (Bool-cases (leb (length (split_listen_ips t.tcp_listen_addr)) 1)) [
        | inl single ↦ rw single refl
        | inr several ↦
            rw several (names_per_ip-Disjoint name 0 (split_listen_ips t.tcp_listen_addr))
      ])
