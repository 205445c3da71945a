-- ===== src/Flow/Enforcement.antt =====
-- The forwards of whoever is over his limits, after `pauseForwardServices` in
-- go-backend/service/flow.go.
use flux_panel_v.Base.{
  ℕ, ◌≡◌, refl, inl, inr, Bool, true, is_some, List, [], ◌∷◌, arith, select, All, All-map_of,
  Bool-cases, ◌==◌,
}
use flux_panel_v.Model.{pos, Forward}
use flux_panel_v.Store.{Db}
use flux_panel_v.Forward.{first_tunnel}
use flux_panel_v.Flow.{is_paused}
use flux_panel_v.Flow.Pausing.{is_due, pause_row, is_hit, paused_by, with_paused}

-- Every forward that the test picks, on a tunnel that exists, is paused.
abbrev pub Quiet : (Forward → Bool) → Db → Type 0
Quiet p db =
    All (λ g. p g ≡ true → is_some (first_tunnel g.tunnel_id db) ≡ true → g.status ≡ pos 0)
      db.forwards

paused_status : (f : Forward) → is_paused f ≡ true → f.status ≡ pos 0
paused_status f h = ground arith

==_refl : (n : ℕ) → n == n ≡ true
==_refl n = ground arith

select_hits :
    (p due : Forward → Bool) (xs : List Forward)
    → All (λ g. p g ≡ true → due g ≡ true → is_hit due (select p xs) g ≡ true) xs
select_hits p due [] = tt
select_hits p due (x ∷ xs) = (
  λ hp hd. ground (arith, ==_refl x.id),
  All-map_of _ _ xs
      (λ g h hp hd. elim (Bool-cases (p x)) [
        | inl picked ↦ ground (arith, h hp hd)
        | inr passed ↦ ground (arith, h hp hd)
      ])
      (select_hits p due xs),
)

module _ (p : Forward → Bool) (blind : (g : Forward) → p (pause_row g) ≡ p g) (db : Db) where
  quiet_after_hits :
      (fs xs : List Forward)
      → All (λ g. p g ≡ true → is_due db g ≡ true → is_hit (is_due db) fs g ≡ true) xs
      → All
          (λ g. p g ≡ true → is_some (first_tunnel g.tunnel_id db) ≡ true → g.status ≡ pos 0)
          (paused_by (is_due db) fs xs)
  quiet_after_hits fs [] h = tt
  quiet_after_hits fs (x ∷ xs) h = elim (Bool-cases (is_hit (is_due db) fs x)) [
    | inl hit ↦ rw hit (λ hp ht. refl, quiet_after_hits fs xs h.1)
    | inr missed ↦ rw missed (
      λ hp ht. elim (Bool-cases (is_paused x)) [
        | inl done ↦ paused_status x done
        | inr runs ↦ ground (arith, h.0)
      ],
      quiet_after_hits fs xs h.1,
    )
  ]

  quiet_kept :
      (fs xs : List Forward)
      → All (λ g. p g ≡ true → is_some (first_tunnel g.tunnel_id db) ≡ true → g.status ≡ pos 0) xs
      → All
          (λ g. p g ≡ true → is_some (first_tunnel g.tunnel_id db) ≡ true → g.status ≡ pos 0)
          (paused_by (is_due db) fs xs)
  quiet_kept fs [] h = tt
  quiet_kept fs (x ∷ xs) h = elim (Bool-cases (is_hit (is_due db) fs x)) [
    | inl hit ↦ rw hit (λ hp ht. refl, quiet_kept fs xs h.1)
    | inr missed ↦ rw missed (h.0, quiet_kept fs xs h.1)
  ]

  pub Quiet-paused : Quiet p (with_paused (select p db.forwards) db)
  unfolding first_tunnel
  Quiet-paused =
      quiet_after_hits (select p db.forwards) db.forwards (select_hits p (is_due db) db.forwards)

  pub Quiet-with_paused : (fs : List Forward) → Quiet p db → Quiet p (with_paused fs db)
  unfolding first_tunnel
  Quiet-with_paused fs h = quiet_kept fs db.forwards h
