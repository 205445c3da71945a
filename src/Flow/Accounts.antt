-- ===== src/Flow/Accounts.antt =====
-- What a report adds to the counters: `processFlowData` in go-backend/service/flow.go.
use flux_panel_v.Base.{
  ℕ, ◌+◌, ◌≡◌, refl, ap, ◌∙◌, Bool, false, not, ◌&&◌, List, [], ◌∷◌, map, update, inl, inr,
  Bool-cases, if◌then◌else◌, ◌==◌,
}
use flux_panel_v.Model.{User, Forward, UserTunnel}
use flux_panel_v.Store.{Db}
use flux_panel_v.Flow.{Keys, account}
use flux_panel_v.Flow.Pausing.{pause_row}
use flux_panel_v.Flow.Runs.{SameButStatus}

-- What a report makes of the tables, row by row: the bytes are added to the counters of the rows with
-- the three keys of its name, those of the permission rows only if the third part is not "0".
-- `pause_row` on both sides leaves the status of a forward open.
pub record Charges (k : Keys) (d u : ℕ) (before after : Db) : Type 0 where
  pub forwards :
      map pause_row after.forwards
      ≡ map
          (λ f.
            if f.id == k.forward
            then record (pause_row f) { in_flow = f.in_flow + d; out_flow = f.out_flow + u }
            else pause_row f)
          before.forwards
  pub users :
      after.users
      ≡ map
          (λ x.
            if x.id == k.user
            then record x { in_flow = x.in_flow + d; out_flow = x.out_flow + u }
            else x)
          before.users
  pub user_tunnels :
      after.user_tunnels
      ≡ map
          (λ x.
            if not k.is_admin_forward && x.id == k.user_tunnel
            then record x { in_flow = x.in_flow + d; out_flow = x.out_flow + u }
            else x)
          before.user_tunnels
  pub tunnels : after.tunnels ≡ before.tunnels
  pub nodes : after.nodes ≡ before.nodes
  pub user_nodes : after.user_nodes ≡ before.user_nodes
  pub speed_limits : after.speed_limits ≡ before.speed_limits

update-map {ℓ} :
    {A : Type ℓ} (p : A → Bool) (g : A → A) (xs : List A)
    → update p g xs ≡ map (λ x. if p x then g x else x) xs
update-map p g [] = refl
update-map p g (x ∷ xs) = ap (λ ys. (if p x then g x else x) ∷ ys) (update-map p g xs)

map-same {ℓ} : {A : Type ℓ} (g : A → A) (xs : List A) → xs ≡ map (λ x. if false then g x else x) xs
map-same g [] = refl
map-same g (x ∷ xs) = ap (λ ys. x ∷ ys) (map-same g xs)

paused-charged :
    (key d u : ℕ) (fs : List Forward)
    → map pause_row (
        update
          (λ f. f.id == key)
          (λ f. record f { in_flow = f.in_flow + d; out_flow = f.out_flow + u })
          fs)
      ≡ map
          (λ f.
            if f.id == key
            then record (pause_row f) { in_flow = f.in_flow + d; out_flow = f.out_flow + u }
            else pause_row f)
          fs
paused-charged key d u [] = refl
paused-charged key d u (f ∷ fs) = elim (Bool-cases (f.id == key)) [
  | inl hit ↦ rw hit (
      ap (λ ys. record (pause_row f) { in_flow = f.in_flow + d; out_flow = f.out_flow + u } ∷ ys)
        (paused-charged key d u fs))
  | inr missed ↦ rw missed (ap (λ ys. pause_row f ∷ ys) (paused-charged key d u fs))
]

users-charged :
    (key d u : ℕ) (xs : List User)
    → update
        (λ x. x.id == key)
        (λ x. record x { in_flow = x.in_flow + d; out_flow = x.out_flow + u })
        xs
      ≡ map
          (λ x.
            if x.id == key
            then record x { in_flow = x.in_flow + d; out_flow = x.out_flow + u }
            else x)
          xs
users-charged key d u xs =
    update-map (λ x. x.id == key)
      (λ x. record x { in_flow = x.in_flow + d; out_flow = x.out_flow + u }) xs

rows-charged :
    (key d u : ℕ) (xs : List UserTunnel)
    → update
        (λ x. x.id == key)
        (λ x. record x { in_flow = x.in_flow + d; out_flow = x.out_flow + u })
        xs
      ≡ map
          (λ x.
            if x.id == key
            then record x { in_flow = x.in_flow + d; out_flow = x.out_flow + u }
            else x)
          xs
rows-charged key d u xs =
    update-map (λ x. x.id == key)
      (λ x. record x { in_flow = x.in_flow + d; out_flow = x.out_flow + u }) xs

pub account-Charges :
    (k : Keys) (d u : ℕ) (before after : Db)
    → SameButStatus after (account k d u before)
    → Charges k d u before after
unfolding account
account-Charges k d u before after h = elim (Bool-cases k.is_admin_forward) [
  | inl admin ↦
      let same = rw admin at h in
      record {
        forwards = same.forwards ∙ paused-charged k.forward d u before.forwards;
        users = same.users ∙ users-charged k.user d u before.users;
        user_tunnels = rw admin (
            same.user_tunnels
            ∙ map-same (λ x. record x { in_flow = x.in_flow + d; out_flow = x.out_flow + u })
                before.user_tunnels);
        tunnels = same.tunnels;
        nodes = same.nodes;
        user_nodes = same.user_nodes;
        speed_limits = same.speed_limits;
      }
  | inr ordinary ↦
      let same = rw ordinary at h in
      record {
        forwards = same.forwards ∙ paused-charged k.forward d u before.forwards;
        users = same.users ∙ users-charged k.user d u before.users;
        user_tunnels =
            rw ordinary (same.user_tunnels ∙ rows-charged k.user_tunnel d u before.user_tunnels);
        tunnels = same.tunnels;
        nodes = same.nodes;
        user_nodes = same.user_nodes;
        speed_limits = same.speed_limits;
      }
]
