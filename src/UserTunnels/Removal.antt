-- ===== src/UserTunnels/Removal.antt =====
-- Removal of a permission row with the forwards of its user on its tunnel: `RemoveUserTunnel`.
use flux_panel_v.Base.{ℕ, Option, none, some, List, [], ◌∷◌, Text, if◌then◌else◌}
use flux_panel_v.Model.{Forward, Tunnel, UserTunnel, Node}
use flux_panel_v.Store.{Env, Notice, Action, Act, pure, gets, check, or_err, ◌>>=◌, ◌>>◌, modify_db}
use flux_panel_v.Nodes.{
  delete_service, delete_service_multi_ip, delete_chains, delete_remote_service,
}
use flux_panel_v.Forward.{is_tunnel_forward, first_tunnel, get_node_by_id}
use flux_panel_v.Forward.Services.{is_multi_ip}
use flux_panel_v.Forward.Create.{remove_forward}
use flux_panel_v.UserTunnels.{find_user_tunnel, forwards_of, name_of, remove_user_tunnel_row}

module _ (env : Env) where
  unfoldable pub delete_entry : Node → Forward → Text → Action Text
  delete_entry n f name =
      if is_multi_ip f.listen_ip
      then delete_service_multi_ip env n.id name f.listen_ip
      else delete_service env n.id name

  unfoldable pub delete_exit : Option Node → Text → Action Text
  delete_exit none name = pure []
  delete_exit (some n) name = delete_remote_service env n.id name

  -- A tunnel that is gone is a row of zeros to the code, whose node 0 is not there.
  unfoldable pub delete_services_at : Forward → Tunnel → Option Node → Text → Act
  unfolding delete_entry delete_exit
  delete_services_at f t none name = pure tt
  delete_services_at f t (some n) name = do
    delete_entry n f name
    out_node ← gets (get_node_by_id t.out_node_id)
    if is_tunnel_forward t
        then (delete_chains env n.id name >> (delete_exit out_node name >> pure tt))
        else pure tt

  unfoldable pub delete_services_of : Forward → Option Tunnel → Text → Act
  unfolding delete_services_at
  delete_services_of f none name = pure tt
  delete_services_of f (some t) name =
      gets (get_node_by_id t.in_node_id) >>= λ n. delete_services_at f t n name

  unfoldable pub remove_forwards : UserTunnel → Option Tunnel → List Forward → Act
  remove_forwards ut t [] = pure tt
  remove_forwards ut t (f ∷ fs) =
      delete_services_of f t (name_of f ut)
      >> (modify_db (remove_forward f.id) >> remove_forwards ut t fs)

  unfoldable pub remove_user_tunnel : ℕ → Act
  remove_user_tunnel id = do
    ut ← check (λ db. or_err (find_user_tunnel id db) Notice.tunnel_permission_missing)
    fs ← gets (forwards_of ut)
    t ← gets (first_tunnel ut.tunnel_id)
    remove_forwards ut t fs
    modify_db (remove_user_tunnel_row id)
