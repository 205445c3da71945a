-- ===== src/Forward/Order/Own.antt =====
-- An ordinary user orders his own forwards only.
use flux_panel_v.Base.{
  ==_iff, ℕ, ◌||◌, ◌+◌, ◌≤◌, ◌≡◌, refl, ◌∙◌, inl, inr, Bool, true, false, not, ◌&&◌, List, [], ◌∷◌,
  arith, All, length, select, update, Bool-cases, ◌==◌,
}
use flux_panel_v.Model.{Forward}
use flux_panel_v.Store.{Db, World, fail_if, ◌>>=◌, modify_db}
use flux_panel_v.Forward.{is_admin}
use flux_panel_v.Forward.Order.{
  ForwardOrderItem, Items, absent, malformed, items, read_items, is_in, count_own, set_forward_inx,
  set_all_inx, check_own, update_forward_order,
}

module _ {A : Type 0} (p q : A → Bool) where
  length-both : (xs : List A) → length (select (λ x. p x && q x) xs) ≤ length (select p xs)
  length-both [] = omega arith
  length-both (x ∷ xs) = ground (arith, length-both xs)

  -- Where nothing is lost by a second test, it holds of all that pass the first.
  All-of_length :
      (xs : List A)
      → length (select p xs) ≤ length (select (λ x. p x && q x) xs)
      → All (λ x. p x ≡ true → q x ≡ true) xs
  All-of_length [] h = tt
  All-of_length (x ∷ xs) h = elim (Bool-cases (p x)) [
    | inl hit ↦ elim (Bool-cases (q x)) [
      | inl good ↦ (λ e. good, All-of_length xs (ground arith))
      | inr bad ↦ absurd (ground (arith, length-both xs))
    ]
    | inr missed ↦ (λ e. ground arith, All-of_length xs (ground arith))
  ]

length-either :
    {A : Type 0} (p q : A → Bool) (xs : List A)
    → length (select (λ x. p x || q x) xs) ≤ length (select p xs) + length (select q xs)
length-either p q [] = omega arith
length-either p q (x ∷ xs) = ground (arith, length-either p q xs)

select-nothing : (xs : List Forward) → length (select (is_in []) xs) ≡ 0
select-nothing [] = refl
select-nothing (f ∷ fs) = select-nothing fs

-- No two forwards have one key.
abbrev pub HasKeys : Db → Type 0
HasKeys db = (id : ℕ) → length (select (λ f. f.id == id) db.forwards) ≤ 1

length-is_in :
    (db : Db) (is : List ForwardOrderItem)
    → HasKeys db
    → length (select (is_in is) db.forwards) ≤ length is
length-is_in db [] keys = omega (arith, select-nothing db.forwards)
length-is_in db (i ∷ is) keys = omega (
  arith,
  length-either (λ f. f.id == i.id) (is_in is) db.forwards,
  keys i.id,
  length-is_in db is keys,
)

module _ (user_id : ℕ) where
  abbrev is_own : Forward → Bool
  is_own f = f.user_id == user_id

  abbrev pub others : List Forward → List Forward
  others = select (λ f. not (f.user_id == user_id))

  -- The forwards that the items name are the user's.
  abbrev Owned : List ForwardOrderItem → List Forward → Type 0
  Owned is fs = All (λ f. is_in is f ≡ true → is_own f ≡ true) fs

  others-update :
      (i : ForwardOrderItem) (fs : List Forward)
      → All (λ f. f.id == i.id ≡ true → is_own f ≡ true) fs
      → others (update (λ f. f.id == i.id) (λ f. record f { inx = i.inx }) fs) ≡ others fs
  others-update i [] h = refl
  others-update i (f ∷ fs) h = ground (arith, others-update i fs h.1, h.0)

  Owned-first :
      (i : ForwardOrderItem) (is : List ForwardOrderItem) (fs : List Forward)
      → Owned (i ∷ is) fs
      → All (λ f. f.id == i.id ≡ true → is_own f ≡ true) fs
  Owned-first i is [] h = tt
  Owned-first i is (f ∷ fs) h = (λ e. h.0 (rw e refl), Owned-first i is fs h.1)

  Owned-rest :
      (i : ForwardOrderItem) (is : List ForwardOrderItem) (fs : List Forward)
      → Owned (i ∷ is) fs
      → Owned is (update (λ f. f.id == i.id) (λ f. record f { inx = i.inx }) fs)
  Owned-rest i is [] h = tt
  Owned-rest i is (f ∷ fs) h = elim (Bool-cases (f.id == i.id)) [
    | inl hit ↦ rw hit (λ e. h.0 (rw hit refl), Owned-rest i is fs h.1)
    | inr missed ↦ rw missed (λ e. h.0 (rw missed e), Owned-rest i is fs h.1)
  ]

  set_all_inx-others :
      (is : List ForwardOrderItem) (w : World)
      → Owned is w.db.forwards
      → others (set_all_inx is w).1.db.forwards ≡ others w.db.forwards
  unfolding set_all_inx set_forward_inx ◌>>=◌ modify_db
  set_all_inx-others [] w h = refl
  set_all_inx-others (i ∷ is) w h =
      set_all_inx-others is _ (Owned-rest i is w.db.forwards h)
      ∙ others-update i w.db.forwards (Owned-first i is w.db.forwards h)

  -- Whatever an ordinary user asks for, and whatever he is answered, the forwards of the other users
  -- stay as they are, their places in the order included, where no two forwards have one key.
  pub update_forward_order-others :
      (role_id : ℕ) (asked : Items) (w : World)
      → is_admin role_id ≡ false
      → HasKeys w.db
      → others (update_forward_order asked user_id role_id w).1.db.forwards ≡ others w.db.forwards
  unfolding update_forward_order read_items check_own count_own ◌>>=◌ fail_if
  update_forward_order-others role_id absent w ordinary keys = refl
  update_forward_order-others role_id malformed w ordinary keys = refl
  update_forward_order-others role_id (items []) w ordinary keys = refl
  update_forward_order-others role_id (items (i ∷ is)) w ordinary keys =
      elim (Bool-cases (
        length (select (λ f. is_in (i ∷ is) f && f.user_id == user_id) w.db.forwards)
        == length (i ∷ is))) [
          | inl all_own ↦
              let same = (==_iff _ (length (i ∷ is))).0 all_own in
              let few = length-is_in w.db (i ∷ is) keys in
              rw (ordinary, all_own)
                (set_all_inx-others (i ∷ is) w
                  (All-of_length (is_in (i ∷ is)) is_own w.db.forwards (omega (arith, same, few))))
          | inr foreign ↦ rw (ordinary, foreign) refl
        ]
