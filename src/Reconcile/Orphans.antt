-- ===== src/Reconcile/Orphans.antt =====
-- `cleanupOrphanServices`.
use flux_panel_v.Base.{
  ℕ, ◌+◌, not, ◌&&◌, Option, none, some, List, [], ◌∷◌, Text, any, map, select, split,
  if◌then◌else◌,
}
use flux_panel_v.Model.{ℤ, pos, eq_ℤ}
use flux_panel_v.Store.{Db, Sent, Command, Env, ok, Action, pure, gets, ◌>>=◌, send}
use flux_panel_v.Nodes.{get_service_names}
use flux_panel_v.Forward.{is_gost_success}
use flux_panel_v.Reconcile.{ReconcileResult, is_on_node}

-- The names with three parts or more whose first part is a number, with that number.
module _ (parse_int : Text → Option ℤ) where
  abbrev pub keep_key : Text → Option ℤ → List (ℤ × Text) → List (ℤ × Text)
  keep_key name none rest = rest
  keep_key name (some id) rest = (id, name) ∷ rest

  abbrev pub keyed : Text → List Text → List (ℤ × Text) → List (ℤ × Text)
  keyed name (a ∷ (b ∷ (c ∷ parts))) rest = keep_key name (parse_int a) rest
  keyed name _ rest = rest

  unfoldable pub read_names : List Text → List (ℤ × Text)
  read_names [] = []
  read_names (name ∷ names) = keyed name (split b'_' name) (read_names names)

  -- The services whose forward has no row with a tunnel on the node.
  unfoldable pub orphans : ℕ → List Text → Db → List (ℤ × Text)
  unfolding read_names
  orphans node names db =
      select (λ p. not (any (λ f. eq_ℤ (pos f.id) p.0 && is_on_node node db f) db.forwards))
        (read_names names)

-- The keys without repetition: the entries of `orphanForwardIds`.
abbrev pub count_keys : List (ℤ × Text) → ℕ
count_keys [] = 0
count_keys (p ∷ ps) = if any (λ q. eq_ℤ q.0 p.0) ps then count_keys ps else count_keys ps + 1

abbrev pub count_cleaned : Text → ℕ → ReconcileResult → ReconcileResult
count_cleaned msg k r =
    if is_gost_success msg then record r { orphans_cleaned = r.orphans_cleaned + k } else r

-- `parse_int` is `strconv.ParseInt` and `data` the list of names in the answer to GetServiceNames,
-- when it can be read. The names go out in the order of the answer, where Go's maps give any order.
module _ (env : Env) (parse_int : Text → Option ℤ) (data_of : List Sent → Option (List Text))
    (node : ℕ) where
  unfoldable pub delete_orphans : List (ℤ × Text) → ReconcileResult → Action ReconcileResult
  delete_orphans [] r = pure r
  delete_orphans (p ∷ ps) r = do
    msg ← send env node (Command.delete_service (map (λ q. q.1) (p ∷ ps)))
    pure (count_cleaned msg (count_keys (p ∷ ps)) r)

  unfoldable pub clean_listed : Option (List Text) → ReconcileResult → Action ReconcileResult
  clean_listed none r = pure r
  clean_listed (some names) r = gets (orphans parse_int node names) >>= λ ps. delete_orphans ps r

  unfoldable pub answer_data : Action (Option (List Text))
  answer_data w = (ok (data_of w.sent), w)

  unfoldable pub cleanup_orphan_services : ReconcileResult → Action ReconcileResult
  cleanup_orphan_services r = do
    msg ← get_service_names env node
    if is_gost_success msg then (answer_data >>= λ names. clean_listed names r) else pure r
