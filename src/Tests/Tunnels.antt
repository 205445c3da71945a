-- ===== src/Tests/Tunnels.antt =====
-- The offered tunnels at a concrete input.
use flux_panel_v.Base.{◌≡◌, refl, [], ◌∷◌, All}
use flux_panel_v.Tunnels.{is_listed, get_user_accessible_tunnels}
use flux_panel_v.Tunnels.Listing.{IsOffered, get_user_accessible_tunnels-IsOffered}
use flux_panel_v.Samples.{tunnel, db}

one_offered : get_user_accessible_tunnels 7 db ≡ (tunnel, 4) ∷ []
unfolding get_user_accessible_tunnels is_listed
one_offered = refl

get_user_accessible_tunnels-IsOffered_example :
    All (IsOffered 7 db db.user_tunnels) (get_user_accessible_tunnels 7 db)
get_user_accessible_tunnels-IsOffered_example = get_user_accessible_tunnels-IsOffered 7 db
