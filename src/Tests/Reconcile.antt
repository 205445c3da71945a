-- ===== src/Tests/Reconcile.antt =====
-- The synchronisation of a node at concrete inputs.
use flux_panel_v.Base.{
  ◌≡◌, refl, true, false, Option, none, some, List, [], ◌∷◌, ◌++◌, All, Any, Text, codes, any,
  eq_text, if◌then◌else◌, ◌&&◌, ◌==◌, show_nat, digits_onto, split, has_byte, trim_space,
}
use flux_panel_v.Model.{ℤ, pos}
use flux_panel_v.Gost.{build_services, split_listen_ips}
use flux_panel_v.Gost.Names.{names_of}
use flux_panel_v.Store.{Sent}
use flux_panel_v.Forward.{build_service_name}
use flux_panel_v.Nodes.{update_forwarder}
use flux_panel_v.Reconcile.{is_on_node}
use flux_panel_v.Reconcile.Orphans.{orphans, read_names}
use flux_panel_v.Reconcile.Runs.{reconcile_gost_services}
use flux_panel_v.Reconcile.Recovery.{Recovers, reconcile_gost_services-Recovers}
use flux_panel_v.Reconcile.Kept.{orphans-spare_services}
use flux_panel_v.Reconcile.HotUpdates.{Names, updated_names, update_forwarder-Names}
use flux_panel_v.Samples.{env, world, db, user_tunnel, args, tunnel, two_addresses}

-- The numbers that occur below.
abbrev parse_int : Text → Option ℤ
parse_int s =
    if eq_text s (codes "5")
    then some (pos 5)
    else if eq_text s (codes "6")
    then some (pos 6)
    else none

-- The node has the two services of forward 5, and one of a forward 6 that is gone.
abbrev listed : List Text
listed = codes "5_7_4_tcp" ∷ (codes "5_7_4_udp" ∷ (codes "6_7_4_tcp" ∷ (codes "web" ∷ [])))

abbrev data_of : List Sent → Option (List Text)
data_of sent = some listed

reads_five : parse_int (show_nat 5) ≡ some (pos 5)
unfolding show_nat digits_onto eq_text
reads_five = refl

five_there : any (λ f. f.id == 5 && is_on_node 1 db f) db.forwards ≡ true
five_there = refl

orphans-spare_services_example :
    All
      (λ name. Any (λ p. p.1 ≡ name) (orphans parse_int 1 listed db) → ⊥)
      ((build_service_name 5 7 (some user_tunnel) ++ codes "_tls")
        ∷ names_of (build_services (build_service_name 5 7 (some user_tunnel)) args tunnel))
orphans-spare_services_example =
    orphans-spare_services parse_int 1 listed db 5 7 (some user_tunnel) args tunnel reads_five
      five_there

one_orphan : orphans parse_int 1 listed db ≡ (pos 6, codes "6_7_4_tcp") ∷ []
unfolding orphans read_names split eq_text
one_orphan = refl

reconcile_gost_services-Recovers_example :
    Recovers world.db (reconcile_gost_services env parse_int data_of 1 false world).1.db
reconcile_gost_services-Recovers_example =
    reconcile_gost_services-Recovers env parse_int data_of 1 false world

update_forwarder-Names_example :
    Names false
      (updated_names
        (update_forwarder env 1 (codes "5_7_4") (codes "8.8.8.8:80") (codes "fifo") world).1.sent)
      (names_of (build_services (codes "5_7_4") args two_addresses))
unfolding split_listen_ips has_byte split trim_space
update_forwarder-Names_example =
    update_forwarder-Names env 1 (codes "5_7_4") (codes "8.8.8.8:80") (codes "fifo") args
      two_addresses world
