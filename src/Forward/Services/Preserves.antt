-- ===== src/Forward/Services/Preserves.antt =====
-- What setting up and removing the services of a forward does to the tables: `createGostServices`,
-- `syncGostServices` and `deleteOldGostServices` in go-backend/service/forward.go.
use flux_panel_v.Base.{ℕ, Option, none, some, Text}
use flux_panel_v.Model.{Forward, Tunnel, Node}
use flux_panel_v.Store.{Db, Env, Result, ok, err, panic}
use flux_panel_v.Store.Preserves.{Preserves, preserving}
use flux_panel_v.Nodes.{
  add_service, update_service, delete_service, delete_service_multi_ip, add_remote_service,
  update_remote_service, delete_remote_service, add_chains, update_chains, delete_chains,
}
use flux_panel_v.Forward.Services.{
  delete_remote_if, create_main_service, create_remote_service, create_chain, create_gost_services,
  or_add, sync_main_service, sync_remote_service, sync_chain, sync_gost_services,
  delete_entry_services, delete_old_gost_services, delete_old_entry, delete_old_exit,
}

module _ (env : Env) {P : Db → Type 0} where
  delete_remote_if-Preserves :
      (n : Option Node) (name : Text) → Preserves P (delete_remote_if env n name)
  unfolding delete_remote_if delete_remote_service
  delete_remote_if-Preserves none name = search preserving
  delete_remote_if-Preserves (some n) name = search preserving

  create_main-Preserves :
      (f : Forward) (t : Tunnel) (l : Option ℕ) (i : Node) (o : Option Node) (name : Text)
      → Preserves P (create_main_service env f t l i o name)
  unfolding create_main_service add_service delete_chains
  create_main-Preserves f t l i o name = search (preserving, delete_remote_if-Preserves) depth 20

  create_remote-Preserves :
      (f : Forward) (t : Tunnel) (l : Option ℕ) (i : Node) (o : Option Node) (name : Text)
      → Preserves P (create_remote_service env f t l i o name)
  unfolding create_remote_service add_remote_service delete_chains delete_remote_service
  create_remote-Preserves f t l i none name = search preserving
  create_remote-Preserves f t l i (some o) name =
      search (preserving, create_main-Preserves) depth 20

  pub create-Preserves :
      (f : Forward) (t : Tunnel) (l : Option ℕ) (i : Node) (o : Option Node) (name : Text)
      → Preserves P (create_gost_services env f t l i o name)
  unfolding create_gost_services create_chain add_chains delete_chains
  create-Preserves f t l i o name =
      search (preserving, create_main-Preserves, create_remote-Preserves) depth 20

  sync_main-Preserves :
      (f : Forward) (t : Tunnel) (l : Option ℕ) (i : Node) (name : Text)
      → Preserves P (sync_main_service env f t l i name)
  unfolding sync_main_service or_add update_service add_service
  sync_main-Preserves f t l i name = search preserving depth 20

  sync_remote-Preserves :
      (f : Forward) (t : Tunnel) (l : Option ℕ) (i : Node) (o : Option Node) (name : Text)
      → Preserves P (sync_remote_service env f t l i o name)
  unfolding sync_remote_service or_add update_remote_service add_remote_service
  sync_remote-Preserves f t l i none name = search preserving
  sync_remote-Preserves f t l i (some o) name = search (preserving, sync_main-Preserves) depth 20

  pub sync-Preserves :
      (f : Forward) (t : Tunnel) (l : Option ℕ) (i : Node) (o : Option Node) (name : Text)
      → Preserves P (sync_gost_services env f t l i o name)
  unfolding sync_gost_services sync_chain or_add update_chains add_chains
  sync-Preserves f t l i o name =
      search (preserving, sync_main-Preserves, sync_remote-Preserves) depth 20

  delete_entry-Preserves :
      (i : Node) (name ip : Text) → Preserves P (delete_entry_services env i name ip)
  unfolding delete_entry_services delete_service delete_service_multi_ip
  delete_entry-Preserves i name ip = search preserving

  delete_old_entry-Preserves :
      (ns : Result (Node × Option Node)) (name ip : Text)
      → Preserves P (delete_old_entry env ns name ip)
  delete_old_entry-Preserves (ok (i, o)) name ip = delete_entry-Preserves i name ip
  delete_old_entry-Preserves (err m) name ip = search preserving
  delete_old_entry-Preserves panic name ip = search preserving

  delete_old_exit-Preserves :
      (ns : Result (Node × Option Node)) (n : Option Node) (name : Text)
      → Preserves P (delete_old_exit env ns n name)
  unfolding delete_chains
  delete_old_exit-Preserves (ok (i, o)) n name =
      search (preserving, delete_remote_if-Preserves) depth 20
  delete_old_exit-Preserves (err m) n name = delete_remote_if-Preserves n name
  delete_old_exit-Preserves panic n name = delete_remote_if-Preserves n name

  pub delete_old-Preserves :
      (f : Forward) (t : Tunnel) → Preserves P (delete_old_gost_services env f t)
  unfolding delete_old_gost_services
  delete_old-Preserves f t =
      search (preserving, delete_old_entry-Preserves, delete_old_exit-Preserves) depth 20
