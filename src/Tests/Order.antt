-- ===== src/Tests/Order.antt =====
-- The order of forwards at a concrete input.
use flux_panel_v.Base.{ℕ, ◌≡◌, ◌≤◌, refl, [], ◌∷◌, arith, length, select, ◌==◌}
use flux_panel_v.Model.{Forward}
use flux_panel_v.Store.{World}
use flux_panel_v.Forward.Order.{items, update_forward_order}
use flux_panel_v.Forward.Order.Own.{HasKeys, others, update_forward_order-others}
use flux_panel_v.Samples.{forward, db, world}

-- A second forward, of another user.
abbrev shared : World
shared = record world {
  db = record db { forwards = forward ∷ (record forward { id = 6; user_id = 8 } ∷ []) };
}

two_keys :
    (id : ℕ) (f g : Forward)
    → f.id ≡ 5
    → g.id ≡ 6
    → length (select (λ h. h.id == id) (f ∷ (g ∷ []))) ≤ 1
two_keys id f g ef eg = ground arith

shared-HasKeys : HasKeys shared.db
shared-HasKeys id = two_keys id forward (record forward { id = 6; user_id = 8 }) refl refl

update_forward_order-others_example :
    others 7
      (update_forward_order (items (record { id = 5; inx = 9 } ∷ [])) 7 1 shared).1.db.forwards
    ≡ others 7 shared.db.forwards
update_forward_order-others_example =
    update_forward_order-others 7 1 (items (record { id = 5; inx = 9 } ∷ [])) shared refl
      shared-HasKeys
