-- ===== src/NodeServices/Marks.antt =====
-- The metadata of a service's configuration, a map that may be nil, and its mark "paused".
use flux_panel_v.Base.{
  ◌≡◌, refl, inl, inr, Bool, true, false, Option, none, some, List, [], ◌∷◌, Text, codes, eq_text,
  eq_text_refl, Bool-cases, if◌then◌else◌,
}

-- A value of the map: a Boolean, or another.
pub data Value : Type 0 where
  flag : Bool → Value
  other : Text → Value

abbrev pub Metadata : Type 0
Metadata = Option (List (Text × Value))

abbrev pub paused_key : Text
paused_key = codes "paused"

abbrev pub is_true : Value → Bool
is_true (flag b) = b
is_true (other t) = false

unfoldable pub has_true : Text → List (Text × Value) → Bool
has_true k [] = false
has_true k (e ∷ es) = if eq_text e.0 k then is_true e.1 else has_true k es

-- `Metadata["paused"] == true`
abbrev pub is_paused : Metadata → Bool
is_paused none = false
is_paused (some es) = has_true paused_key es

-- `m[k] = v`
unfoldable pub put : Text → Value → List (Text × Value) → List (Text × Value)
put k v [] = (k, v) ∷ []
put k v (e ∷ es) = if eq_text e.0 k then (k, v) ∷ es else e ∷ put k v es

-- `delete(m, k)`: a map has one value of a key at most.
unfoldable pub delete : Text → List (Text × Value) → List (Text × Value)
delete k [] = []
delete k (e ∷ es) = if eq_text e.0 k then delete k es else e ∷ delete k es

abbrev pub mark_paused : Metadata → Metadata
mark_paused none = some (put paused_key (flag true) [])
mark_paused (some es) = some (put paused_key (flag true) es)

abbrev pub non_empty : List (Text × Value) → Metadata
non_empty [] = none
non_empty (e ∷ es) = some (e ∷ es)

-- An empty map becomes nil.
abbrev pub unmark_paused : Metadata → Metadata
unmark_paused none = none
unmark_paused (some es) = non_empty (delete paused_key es)

has_true-put : (k : Text) (es : List (Text × Value)) → has_true k (put k (flag true) es) ≡ true
unfolding has_true put
has_true-put k [] = rw (eq_text_refl k) refl
has_true-put k (e ∷ es) = elim (Bool-cases (eq_text e.0 k)) [
  | inl same ↦ rw (same, eq_text_refl k) refl
  | inr other_key ↦ rw (other_key, other_key) (has_true-put k es)
]

has_true-delete : (k : Text) (es : List (Text × Value)) → has_true k (delete k es) ≡ false
unfolding has_true delete
has_true-delete k [] = refl
has_true-delete k (e ∷ es) = elim (Bool-cases (eq_text e.0 k)) [
  | inl same ↦ rw same (has_true-delete k es)
  | inr other_key ↦ rw (other_key, other_key) (has_true-delete k es)
]

pub is_paused-mark : (m : Metadata) → is_paused (mark_paused m) ≡ true
is_paused-mark none = has_true-put paused_key []
is_paused-mark (some es) = has_true-put paused_key es

is_paused-non_empty :
    (es : List (Text × Value)) → has_true paused_key es ≡ false → is_paused (non_empty es) ≡ false
is_paused-non_empty [] h = refl
is_paused-non_empty (e ∷ es) h = h

pub is_paused-unmark : (m : Metadata) → is_paused (unmark_paused m) ≡ false
is_paused-unmark none = refl
is_paused-unmark (some es) =
    is_paused-non_empty (delete paused_key es) (has_true-delete paused_key es)
