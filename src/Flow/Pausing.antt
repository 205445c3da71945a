-- ===== src/Flow/Pausing.antt =====
-- What `pauseForwardServices` leaves in the table of forwards.
use flux_panel_v.Base.{
  ◌≡◌, refl, sym, ap, ◌∙◌, inl, inr, Bool, true, false, not, ◌&&◌, some, is_some, List, [], ◌∷◌,
  arith, update, any, Bool-cases, Option-cases, if◌then◌else◌, ◌==◌,
}
use flux_panel_v.Model.{pos, Forward, Tunnel}
use flux_panel_v.Store.{Db, World, Env, Result, ok, ◌>>=◌, modify_db, send}
use flux_panel_v.Nodes.{pause_service, pause_service_multi_ip, pause_remote_service}
use flux_panel_v.Forward.{first_tunnel}
use flux_panel_v.Forward.Create.{set_status}
use flux_panel_v.Flow.{
  is_paused, pause_on_entry, pause_on_exit, pause_through, pause_one, pause_forward_services,
}

-- A forward that runs, on a tunnel that exists.
abbrev pub is_due : Db → Forward → Bool
is_due db f = not (is_paused f) && is_some (first_tunnel f.tunnel_id db)

abbrev pub pause_row : Forward → Forward
pause_row f = record f { status = pos 0 }

-- A run that succeeds and leaves these tables.
pub record Leaves (db : Db) (r : Result (Unit {0}) × World) : Type 0 where
  pub returned : r.0 ≡ ok tt
  pub tables : r.1.db ≡ db

pause_through-Leaves :
    (env : Env) (f : Forward) (t : Tunnel) (w : World)
    → Leaves (set_status (pos 0) f.id w.db) (pause_through env f (some t) w)
unfolding pause_through ◌>>=◌ modify_db pause_on_entry pause_on_exit pause_service
    pause_service_multi_ip pause_remote_service send
pause_through-Leaves env f t w = record { returned = ground arith; tables = ground arith }

pause_one-Leaves :
    (env : Env) (f : Forward) (w : World)
    → Leaves (if is_due w.db f then set_status (pos 0) f.id w.db else w.db) (pause_one env f w)
unfolding pause_one ◌>>=◌
pause_one-Leaves env f w = elim (Bool-cases (is_paused f)) [
  | inl done ↦ rw done (record { returned = refl; tables = refl })
  | inr runs ↦ rw runs (elim (Option-cases (first_tunnel f.tunnel_id w.db)) [
    | inl missing ↦ rw missing (record { returned = refl; tables = refl })
    | inr (t, found) ↦ rw found (pause_through-Leaves env f t w)
  ])
]

-- The rows with the key of a forward of the list that is due.
abbrev pub is_hit : (Forward → Bool) → List Forward → Forward → Bool
is_hit due fs g = any (λ f. g.id == f.id && due f) fs

abbrev pub paused_by : (Forward → Bool) → List Forward → List Forward → List Forward
paused_by due fs = update (is_hit due fs) pause_row

paused_by-due :
    (due : Forward → Bool) (f : Forward) (fs xs : List Forward)
    → due f ≡ true
    → paused_by due fs (update (λ g. g.id == f.id) pause_row xs) ≡ paused_by due (f ∷ fs) xs
paused_by-due due f fs [] h = refl
paused_by-due due f fs (x ∷ xs) h = ground (arith, paused_by-due due f fs xs h)

paused_by-skip :
    (due : Forward → Bool) (f : Forward) (fs xs : List Forward)
    → due f ≡ false
    → paused_by due fs xs ≡ paused_by due (f ∷ fs) xs
paused_by-skip due f fs [] h = refl
paused_by-skip due f fs (x ∷ xs) h = ground (arith, paused_by-skip due f fs xs h)

pub paused_by-nil : (due : Forward → Bool) (xs : List Forward) → paused_by due [] xs ≡ xs
paused_by-nil due [] = refl
paused_by-nil due (x ∷ xs) = ground (arith, paused_by-nil due xs)

abbrev pub with_paused : List Forward → Db → Db
with_paused fs db = record db { forwards = paused_by (is_due db) fs db.forwards }

paused_after_one :
    (f : Forward) (fs : List Forward) (db : Db)
    → with_paused fs (if is_due db f then set_status (pos 0) f.id db else db)
      ≡ with_paused (f ∷ fs) db
unfolding set_status first_tunnel
paused_after_one f fs db = elim (Bool-cases (is_due db f)) [
  | inl due ↦ rw due (
      ap (λ (xs : List Forward). record db { forwards = xs })
        (paused_by-due (is_due db) f fs db.forwards due))
  | inr idle ↦ rw idle (
      ap (λ (xs : List Forward). record db { forwards = xs })
        (paused_by-skip (is_due db) f fs db.forwards idle))
]

-- Pausing a list of forwards changes the status of the rows with their keys and nothing else, and
-- skips forwards that are paused already or whose tunnel is gone. It never fails.
pub pause_forward_services_lem :
    (env : Env) (fs : List Forward) (w : World)
    → Leaves (with_paused fs w.db) (pause_forward_services env fs w)
unfolding pause_forward_services ◌>>=◌
pause_forward_services_lem env [] w = record {
  returned = refl;
  tables = sym (
      ap (λ (xs : List Forward). record w.db { forwards = xs })
        (paused_by-nil (is_due w.db) w.db.forwards));
}
pause_forward_services_lem env (f ∷ fs) w =
    let one = pause_one-Leaves env f w in
    let rest = pause_forward_services_lem env fs (pause_one env f w).1 in
    rw one.returned (record {
      returned = rest.returned;
      tables = rest.tables ∙ (ap (with_paused fs) one.tables ∙ paused_after_one f fs w.db);
    })
