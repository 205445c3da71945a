-- ===== src/Forward/Order.antt =====
-- The order of the forwards: `UpdateForwardOrder` in go-backend/service/forward.go.
pub mod Own
use flux_panel_v.Base.{
  ℕ, not, ◌&&◌, Option, none, some, List, [], ◌∷◌, any, is_empty, length, select, update, ◌==◌,
  Bool, true, false, if◌then◌else◌,
}
use flux_panel_v.Model.{Forward}
use flux_panel_v.Store.{
  Db, World, Env, Result, ok, err, Notice, notice, Action, Act, pure, fail, lift, gets, fail_if,
  ◌>>=◌, ◌>>◌, modify_db,
}
use flux_panel_v.Forward.{is_admin}

pub record ForwardOrderItem : Type 0 where
  pub id : ℕ
  pub inx : ℕ

-- What the request's `forwards` is read as: it may be missing, or no list of items.
pub data Items : Type 0 where
  absent malformed : Items
  items : List ForwardOrderItem → Items

unfoldable pub read_items : Items → Result (List ForwardOrderItem)
read_items absent = err (notice Notice.forwards_parameter_missing)
read_items malformed = err (notice Notice.forwards_malformed)
read_items (items is) = if is_empty is then err (notice Notice.forwards_empty) else ok is

-- `id IN ?`
abbrev pub is_in : List ForwardOrderItem → Forward → Bool
is_in is f = any (λ i. f.id == i.id) is

unfoldable pub count_own : List ForwardOrderItem → ℕ → Db → ℕ
count_own is user_id db = length (select (λ f. is_in is f && f.user_id == user_id) db.forwards)

unfoldable pub set_forward_inx : ForwardOrderItem → Db → Db
set_forward_inx i db = record db {
  forwards = update (λ f. f.id == i.id) (λ f. record f { inx = i.inx }) db.forwards;
}

unfoldable pub set_all_inx : List ForwardOrderItem → Act
set_all_inx [] = pure tt
set_all_inx (i ∷ is) = modify_db (set_forward_inx i) >> set_all_inx is

unfoldable pub check_own : List ForwardOrderItem → ℕ → ℕ → Db → Bool
check_own is user_id role_id db =
    not (is_admin role_id) && not (count_own is user_id db == length is)

unfoldable pub update_forward_order : Items → ℕ → ℕ → Act
update_forward_order data_items user_id role_id = do
  is ← lift (read_items data_items)
  foreign ← gets (check_own is user_id role_id)
  fail_if foreign (notice Notice.not_own_order)
  set_all_inx is
