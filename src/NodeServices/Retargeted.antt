-- ===== src/NodeServices/Retargeted.antt =====
-- What updateForwarder hands to the handlers, and what it makes of a node in step.
use flux_panel_v.Base.{
  ◌≡◌, refl, sym, ap, subst, ◌∙◌, inl, inr, Bool, true, false, not, ◌&&◌, Option, none, some, List,
  [], ◌∷◌, map, Text, is_empty, is_some, eq_text, trim_space, Bool-cases, if◌then◌else◌, some-none,
  true-false,
}
use flux_panel_v.NodeServices.Marks.{is_paused}
use flux_panel_v.NodeServices.{
  ServiceConfig, Node, Refusal, no_services, name_required, not_found, no_handler, no_forward,
  no_forwarder, bad_forwarder, Outcome, done, refused, is_registered, change_first,
}
use flux_panel_v.NodeServices.AtName.{flags}
use flux_panel_v.NodeServices.InStep.{Agrees, IsInStep, IsLike}
use flux_panel_v.NodeServices.Targets.{
  Handler, without_handler, without_forward, with_forward, Target, Hops, hand_hop, use_handler,
  hand_each, set_target, save_each, save_handed, update_forwarder,
}

-- A change that keeps name and metadata keeps the marks.
flags-kept :
    (f : ServiceConfig → ServiceConfig)
    → ((c : ServiceConfig)
        → ((f c).name ≡ c.name) × (is_paused (f c).metadata ≡ is_paused c.metadata))
    → (y x : Text) (cs : List ServiceConfig) → flags x (change_first y f cs) ≡ flags x cs
unfolding flags change_first
flags-kept f keeps y x [] = refl
flags-kept f keeps y x (c ∷ cs) = elim (Bool-cases (eq_text c.name y)) [
  | inl own ↦ rw own (
      ap (λ b. if b then is_paused (f c).metadata ∷ flags x cs else flags x cs)
        (ap (λ z. eq_text z x) (keeps c).0)
      ∙ ap (λ p. if eq_text c.name x then p ∷ flags x cs else flags x cs) (keeps c).1)
  | inr other ↦ rw other (
      ap (λ bs. if eq_text c.name x then is_paused c.metadata ∷ bs else bs)
        (flags-kept f keeps y x cs))
]

module _ (handler_of : Text → Handler) (parse_forwarder : Text → Option Text) where
  -- An entry that is taken, and the hop that it brings.
  abbrev takes_parsed : Option Text → Bool
  takes_parsed none = false
  takes_parsed (some hop) = not (is_some (parse_forwarder hop))

  abbrev takes_target : Handler → Option Text → Bool
  takes_target with_forward target = takes_parsed target
  takes_target _ target = false

  abbrev pub is_taken : Target → Node → Bool
  is_taken t n =
      not (is_empty (trim_space t.name))
      && (is_registered (trim_space t.name) n
          && takes_target (handler_of (trim_space t.name)) t.forwarder)

  abbrev pub all_taken : List Target → Node → Bool
  all_taken [] n = true
  all_taken (t ∷ ts) n = is_taken t n && all_taken ts n

  abbrev hop_of : Option Text → Text
  hop_of none = []
  hop_of (some hop) = hop

  abbrev pub all_hops : List Target → Hops
  all_hops ts = map (λ t. (trim_space t.name, hop_of t.forwarder)) ts

  -- The entries before the first one that is not taken.
  abbrev pub first_taken : List Target → Node → List Target
  first_taken [] n = []
  first_taken (t ∷ ts) n = let rest = first_taken ts n in if is_taken t n then t ∷ rest else []

  abbrev pub Ended : Bool → Option Refusal → Type 0
  Ended true r = r ≡ none
  Ended false r = (q : Refusal) × (r ≡ some q)

  -- The hops of the entries before the first one that is refused, if any is.
  abbrev pub Hands : Bool → Hops → Option Refusal × Hops → Type 0
  Hands b hops r = Ended b r.0 × (r.1 ≡ hops)

  hand_each-Hands :
      (ts : List Target) (n : Node)
      → Hands
          (all_taken ts n)
          (all_hops (first_taken ts n))
          (hand_each handler_of parse_forwarder ts n)
  unfolding hand_each
  hand_each-Hands [] n = (refl, refl)
  hand_each-Hands (t ∷ ts) n =
      by_tests (is_empty (trim_space t.name)) (is_registered (trim_space t.name) n)
        (handler_of (trim_space t.name)) t.forwarder (all_taken ts n) (first_taken ts n)
        (hand_each handler_of parse_forwarder ts n) (hand_each-Hands ts n)
    where
      name : Text
      name = trim_space t.name

      none_handed : Hops
      none_handed = []

      none_yet : (q : Refusal) → ((r : Refusal) × (some q ≡ some r)) × (none_handed ≡ [])
      none_yet q = ((q, refl), refl)

      by_hop :
          (o : Option Text) (hop : Text) (b : Bool) (us : List Target) (r : Option Refusal × Hops)
          → Hands b (all_hops us) r
          → Hands
              (not (is_some o) && b)
              (all_hops (
                if not (is_some o)
                then record { name = t.name; forwarder = some hop } ∷ us
                else []))
              (hand_hop name hop o r)
      by_hop (some e) hop b us r h = none_yet (bad_forwarder name e)
      by_hop none hop b us (q, hops) h = (h.0, ap (λ hs. (name, hop) ∷ hs) h.1)

      by_tests :
          (e g : Bool) (k : Handler) (target : Option Text) (b : Bool) (us : List Target)
          (r : Option Refusal × Hops)
          → Hands b (all_hops us) r
          → Hands
              ((not e && (g && takes_target k target)) && b)
              (all_hops (
                if not e && (g && takes_target k target)
                then record { name = t.name; forwarder = target } ∷ us
                else []))
              (if e
                then (some name_required, [])
                else if g
                then use_handler handler_of parse_forwarder name k target r
                else (some (not_found name), []))
      by_tests true g k target b us r h = none_yet name_required
      by_tests false false k target b us r h = none_yet (not_found name)
      by_tests false true without_handler target b us r h = none_yet (no_handler name)
      by_tests false true without_forward target b us r h = none_yet (no_forward name)
      by_tests false true with_forward none b us r h = none_yet (no_forwarder name)
      by_tests false true with_forward (some hop) b us r h =
          by_hop (parse_forwarder hop) hop b us r h

  flags-save_each :
      (ts : List Target) (cs : List ServiceConfig) (x : Text)
      → flags x (save_each handler_of parse_forwarder ts cs) ≡ flags x cs
  unfolding save_each
  flags-save_each [] cs x = refl
  flags-save_each (t ∷ ts) cs x =
      flags-save_each ts
        (change_first t.name (set_target handler_of parse_forwarder t.forwarder) cs) x
      ∙ flags-kept (set_target handler_of parse_forwarder t.forwarder) (λ c. (refl, refl)) t.name x
          cs

  -- Done, with every hop handed over; or refused, with the hops before the refused one handed over.
  unfoldable pub Retargets : Bool → List Target → Node → Outcome × (Hops × Node) → Type 0
  Retargets true ts n r = (r.0 ≡ done) × ((r.1.0 ≡ all_hops ts) × IsLike n.registry r.1.1)
  Retargets false ts n r =
      ((q : Refusal) × (r.0 ≡ refused q)) × ((r.1.0 ≡ all_hops (first_taken ts n)) × (r.1.1 ≡ n))

  -- If all are taken, the entries before the first that is not are all.
  all-first_taken : (ts : List Target) (n : Node) → all_taken ts n ≡ true → first_taken ts n ≡ ts
  all-first_taken [] n e = refl
  all-first_taken (t ∷ ts) n e = elim (Bool-cases (is_taken t n)) [
    | inl taken ↦ rw taken (ap (λ us. t ∷ us) (all-first_taken ts n (rw taken at e)))
    | inr refused' ↦ absurd (true-false (sym (rw refused' at e)))
  ]

  handed-Retargets :
      (ts : List Target) (n : Node) (b : Bool) (r : Option Refusal × Hops)
      → all_taken ts n ≡ b
      → IsInStep n
      → Hands b (all_hops (first_taken ts n)) r
      → Retargets b ts n (save_handed handler_of parse_forwarder ts r n)
  unfolding Retargets IsLike
  handed-Retargets ts n true (some q, hops) all h k = absurd (some-none q k.0)
  handed-Retargets ts n true (none, hops) all h k = (
    refl,
    (
      k.1 ∙ ap all_hops (all-first_taken ts n all),
      λ x. (
        refl,
        subst (λ bs. Agrees (n.registry x) bs) (sym (flags-save_each ts n.services x)) (h x),
      ),
    ),
  )
  handed-Retargets ts n false (none, hops) all h k = absurd (some-none k.0.0 (sym k.0.1))
  handed-Retargets ts n false (some q, hops) all h k = ((q, refl), (k.1, refl))

  -- On a node in step, updateForwarder gives every service that it is asked for its new hop, in their
  -- order, when each is there with a handler that takes hops and a configuration that is parsed;
  -- the registry and the marks stay as they are. Otherwise it refuses and leaves registry and
  -- configuration as they were, and exactly the services before the first one that it refuses have
  -- been given their new hops.
  pub update_forwarder-Retargets :
      (ts : List Target) (n : Node)
      → IsInStep n
      → Retargets
          (not (is_empty ts) && all_taken ts n)
          ts
          n
          (update_forwarder handler_of parse_forwarder ts n)
  unfolding update_forwarder Retargets
  update_forwarder-Retargets [] n h = ((no_services, refl), (refl, refl))
  update_forwarder-Retargets (t ∷ ts) n h =
      handed-Retargets (t ∷ ts) n (all_taken (t ∷ ts) n) _ refl h (hand_each-Hands (t ∷ ts) n)
