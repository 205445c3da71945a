-- ===== src/Forward/Ports/Usage.antt =====
-- When a port counts as used on a node.
use flux_panel_v.Base.{
  ℕ, ◌≡◌, ◌≢◌, refl, ◌⊎◌, inl, inr, ◌↔◌, Bool, true, false, not, ◌&&◌, ◌||◌, Option, none, some,
  List, [], ◌∷◌, arith, select, any, Any, Bool-cases, ◌==◌,
}
use flux_panel_v.Model.{Forward}
use flux_panel_v.Store.{Db}
use flux_panel_v.Forward.Ports.{not_excluded, through, is_port_used}

module _ {ℓ} {A : Type ℓ} (p : A → Bool) (P : A → Type 0) where
  any_iff_cons :
      (x : A) (xs : List A)
      → (p x ≡ true) ↔ P x
      → (any p xs ≡ true) ↔ Any P xs
      → (p x || any p xs ≡ true) ↔ (P x ⊎ Any P xs)
  any_iff_cons x xs h t = (to, from)
    where
      to : p x || any p xs ≡ true → P x ⊎ Any P xs
      to e = elim (Bool-cases (p x)) [
        | inl yes' ↦ inl (h.0 yes')
        | inr no' ↦ inr (t.0 (rw no' at e))
      ]

      from : P x ⊎ Any P xs → p x || any p xs ≡ true
      from (inl a) = rw (h.1 a) refl
      from (inr a) = let e = t.1 a in ground arith

  pub any_iff : (xs : List A) → ((x : A) → (p x ≡ true) ↔ P x) → (any p xs ≡ true) ↔ Any P xs
  any_iff [] h = (λ e. cc, λ a. absurd a)
  any_iff (x ∷ xs) h = any_iff_cons x xs (h x) (any_iff xs h)

pub any-select {ℓ} :
    {A : Type ℓ} (p q : A → Bool) (xs : List A) → any p (select q xs) ≡ any (λ x. q x && p x) xs
any-select p q [] = refl
any-select p q (x ∷ xs) = ground (arith, any-select p q xs)

-- A forward that the allocation leaves out, the one that is edited.
abbrev pub IsCounted : Option ℕ → Forward → Type 0
IsCounted none f = Unit {0}
IsCounted (some id) f = f.id ≢ id

-- A forward whose tunnel starts, or ends, on the node.
abbrev pub EntersAt : ℕ → Db → Forward → Type 0
EntersAt node db f = Any (λ t. (t.in_node_id ≡ node) × (t.id ≡ f.tunnel_id)) db.tunnels

abbrev pub LeavesAt : ℕ → Db → Forward → Type 0
LeavesAt node db f = Any (λ t. (t.out_node_id ≡ node) × (t.id ≡ f.tunnel_id)) db.tunnels

-- The port of another forward at its entry or at its exit on the node.
abbrev pub IsUsed : ℕ → Option ℕ → Db → ℕ → Type 0
IsUsed node exclude db port =
    Any (λ f. EntersAt node db f × IsCounted exclude f × (f.in_port ≡ port)) db.forwards
    ⊎ Any (λ f. LeavesAt node db f × IsCounted exclude f × (f.out_port ≡ port)) db.forwards

IsCounted-iff :
    (exclude : Option ℕ) (f : Forward) → (not_excluded exclude f ≡ true) ↔ IsCounted exclude f
IsCounted-iff none f = (λ e. tt, λ u. refl)
IsCounted-iff (some id) f = (λ e. ground arith, λ u. ground arith)

enters_iff :
    (node : ℕ) (db : Db) (f : Forward)
    → (through (λ t. t.in_node_id == node) db f ≡ true) ↔ EntersAt node db f
enters_iff node db f =
    rw (any-select (λ t. t.id == f.tunnel_id) (λ t. t.in_node_id == node) db.tunnels)
      (any_iff _ _ db.tunnels (λ t. (λ e. (ground arith, ground arith), λ h. ground arith)))

leaves_iff :
    (node : ℕ) (db : Db) (f : Forward)
    → (through (λ t. t.out_node_id == node) db f ≡ true) ↔ LeavesAt node db f
leaves_iff node db f =
    rw (any-select (λ t. t.id == f.tunnel_id) (λ t. t.out_node_id == node) db.tunnels)
      (any_iff _ _ db.tunnels (λ t. (λ e. (ground arith, ground arith), λ h. ground arith)))

-- One row of either table scan.
row_iff :
    (on counted : Bool) (own port : ℕ) (On Counted : Type 0)
    → (on ≡ true) ↔ On
    → (counted ≡ true) ↔ Counted
    → port ≢ 0
    → (on && (counted && (not (own == 0) && own == port)) ≡ true) ↔ (On × Counted × (own ≡ port))
row_iff true true own port On Counted a b h =
    (λ e. (a.0 refl, b.0 refl, ground arith), λ x. let e = x.2 in ground arith)
row_iff true false own port On Counted a b h = (λ e. cc, λ x. b.1 x.1)
row_iff false counted own port On Counted a b h = (λ e. cc, λ x. a.1 x.0)

pub or_iff :
    (a b : Bool) (P Q : Type 0) → (a ≡ true) ↔ P → (b ≡ true) ↔ Q → (a || b ≡ true) ↔ (P ⊎ Q)
or_iff true b P Q p q = (λ e. inl (p.0 refl), λ x. refl)
or_iff false b P Q p q = (λ e. inr (q.0 e), λ x. elim x [ inl y ↦ cc (p.1 y) | inr y ↦ q.1 y ])

-- A port other than 0 counts as used on a node exactly when it is the entry port of a forward whose
-- tunnel starts there, or the exit port of one whose tunnel ends there, the edited forward left out.
pub is_port_used_iff :
    (node : ℕ) (exclude : Option ℕ) (db : Db) (port : ℕ)
    → port ≢ 0
    → (is_port_used node exclude db port ≡ true) ↔ IsUsed node exclude db port
unfolding is_port_used
is_port_used_iff node exclude db port h =
    or_iff _ _ _ _
      (any_iff _ _ db.forwards
        (λ f. row_iff _ _ f.in_port port _ _ (enters_iff node db f) (IsCounted-iff exclude f) h))
      (any_iff _ _ db.forwards
        (λ f. row_iff _ _ f.out_port port _ _ (leaves_iff node db f) (IsCounted-iff exclude f) h))
