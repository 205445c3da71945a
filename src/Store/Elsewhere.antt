-- ===== src/Store/Elsewhere.antt =====
-- Two states of the tables that differ at most in the forwards with one key.
use flux_panel_v.Base.{ℕ, ◌≡◌, refl, ◌∙◌, not, List, [], ◌∷◌, arith, select, update, ◌==◌}
use flux_panel_v.Model.{Forward}
use flux_panel_v.Store.{Db}

abbrev pub others : ℕ → List Forward → List Forward
others id = select (λ f. not (f.id == id))

pub record SameElsewhere (id : ℕ) (a b : Db) : Type 0 where
  pub users : a.users ≡ b.users
  pub tunnels : a.tunnels ≡ b.tunnels
  pub user_tunnels : a.user_tunnels ≡ b.user_tunnels
  pub nodes : a.nodes ≡ b.nodes
  pub user_nodes : a.user_nodes ≡ b.user_nodes
  pub speed_limits : a.speed_limits ≡ b.speed_limits
  pub forwards : others id a.forwards ≡ others id b.forwards

pub same : (id : ℕ) (a : Db) → SameElsewhere id a a
same id a = record {
  users = refl;
  tunnels = refl;
  user_tunnels = refl;
  nodes = refl;
  user_nodes = refl;
  speed_limits = refl;
  forwards = refl;
}

pub then_same :
    {id : ℕ} {a b c : Db} → SameElsewhere id a b → SameElsewhere id b c → SameElsewhere id a c
then_same p q = record {
  users = p.users ∙ q.users;
  tunnels = p.tunnels ∙ q.tunnels;
  user_tunnels = p.user_tunnels ∙ q.user_tunnels;
  nodes = p.nodes ∙ q.nodes;
  user_nodes = p.user_nodes ∙ q.user_nodes;
  speed_limits = p.speed_limits ∙ q.speed_limits;
  forwards = p.forwards ∙ q.forwards;
}

others-update :
    (id : ℕ) (g : Forward → Forward) (keeps : (f : Forward) → (g f).id ≡ f.id) (fs : List Forward)
    → others id fs ≡ others id (update (λ f. f.id == id) g fs)
others-update id g keeps [] = refl
others-update id g keeps (f ∷ fs) = ground (arith, keeps f, others-update id g keeps fs)

pub with_forwards :
    (id : ℕ) (db : Db) (g : Forward → Forward) (keeps : (f : Forward) → (g f).id ≡ f.id)
    → SameElsewhere id db (record db { forwards = update (λ f. f.id == id) g db.forwards })
with_forwards id db g keeps = record {
  users = refl;
  tunnels = refl;
  user_tunnels = refl;
  nodes = refl;
  user_nodes = refl;
  speed_limits = refl;
  forwards = others-update id g keeps db.forwards;
}
