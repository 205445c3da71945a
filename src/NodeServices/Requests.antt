-- ===== src/NodeServices/Requests.antt =====
-- Any sequence of requests to a node, against a map from names to the stages of their services.
use flux_panel_v.Base.{
  ◌≡◌, Bool, true, false, not, ◌&&◌, List, [], ◌∷◌, map, Text, is_some, is_empty, trim_space,
  if◌then◌else◌,
}
use flux_panel_v.NodeServices.{ServiceConfig, Node, Refusal, Outcome, done, refused, Parser}
use flux_panel_v.NodeServices.Stops.{delete_services, pause_services}
use flux_panel_v.NodeServices.Starts.{create_services, resume_services}
use flux_panel_v.NodeServices.Updates.{update_services}
use flux_panel_v.NodeServices.Updating.{IsTrimmed}
use flux_panel_v.NodeServices.Registering.{config_names}
use flux_panel_v.NodeServices.InStep.{Picture, without}
use flux_panel_v.NodeServices.Pausing.{paused}
use flux_panel_v.NodeServices.Creating.{distinct}
use flux_panel_v.NodeServices.Created.{asked_names, IsUnmarked}
use flux_panel_v.NodeServices.Creation.{with_served}

pub data Request : Type 0 where
  creates updates : List ServiceConfig → Request
  deletes pauses resumes : List Text → Request

unfoldable pub handle : Parser → Request → Node → Outcome × Node
handle parse (creates cs) n = create_services parse cs n
handle parse (updates cs) n = update_services parse cs n
handle parse (deletes ss) n = delete_services ss n
handle parse (pauses ss) n = pause_services parse ss n
handle parse (resumes ss) n = resume_services parse ss n

-- The answers to requests in a row, and the node after them.
unfoldable pub handle_all : Parser → List Request → Node → List Outcome × Node
handle_all parse [] n = ([], n)
handle_all parse (r ∷ rs) n =
    let (o, v) = handle parse r n in let (os, w) = handle_all parse rs v in (o ∷ os, w)

-- The same on the map alone: which requests are done, and what they make of it.
unfoldable pub is_known : Text → Picture → Bool
is_known s f = not (is_empty s) && is_some (f s)

unfoldable pub all_known : List Text → Picture → Bool
unfolding is_known
all_known [] f = true
all_known (s ∷ ss) f = is_known (trim_space s) f && all_known ss f

unfoldable pub all_unknown : List Text → Picture → Bool
all_unknown [] f = true
all_unknown (s ∷ ss) f = (not (is_empty s) && not (is_some (f s))) && all_unknown ss f

unfoldable pub may : Request → Picture → Bool
unfolding is_known all_known all_unknown
may (creates cs) f =
    not (is_empty cs) && (all_unknown (asked_names cs) f && distinct (asked_names cs))
may (updates cs) f = not (is_empty (config_names cs)) && all_known (config_names cs) f
may (deletes ss) f = not (is_empty ss) && all_known ss f
may (pauses ss) f = not (is_empty ss) && all_known ss f
may (resumes ss) f = not (is_empty ss) && all_known ss f

unfoldable pub redraw : Request → Picture → Picture
redraw (creates cs) f = with_served (asked_names cs) f
redraw (updates cs) f = with_served (asked_names cs) f
redraw (deletes ss) f = without (map trim_space ss) f
redraw (pauses ss) f = paused (map trim_space ss) f
redraw (resumes ss) f = with_served (map trim_space ss) f

unfoldable pub replay : List Request → Picture → List Bool × Picture
replay [] f = ([], f)
replay (r ∷ rs) f = let (bs, g) = replay rs (if may r f then redraw r f else f) in (may r f ∷ bs, g)

-- An answer is that a request is done exactly when it may be.
abbrev pub Answers : Bool → Outcome → Type 0
Answers true o = o ≡ done
Answers false o = (q : Refusal) × (o ≡ refused q)

unfoldable pub AllAnswer : List Bool → List Outcome → Type 0
AllAnswer [] [] = Unit
AllAnswer (b ∷ bs) (o ∷ os) = Answers b o × AllAnswer bs os
AllAnswer _ _ = ⊥

-- A request brings no configuration that is marked as paused, and an update brings each name without
-- space around it and none twice.
unfoldable pub IsPlain : Request → Type 0
IsPlain (creates cs) = IsUnmarked cs
IsPlain (updates cs) = IsUnmarked cs × IsTrimmed cs × (distinct (asked_names cs) ≡ true)
IsPlain _ = Unit
