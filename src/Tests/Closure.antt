-- ===== src/Tests/Closure.antt =====
-- The dependency groups of three candidates.
use astrbot_plugin_astrconti.Prelude.{
  ℕ, ◌≡◌, ◌≢◌, err, refl, ◌≤◌, String, Bool, false, none, List, [], ◌∷◌, ok, EachOf, flatten,
  length, sum_by, string_eq, mem,
}
use astrbot_plugin_astrconti.Runtime.Candidate.{
  CandidateBlock, relevant_evidence, dependency, decision, CandidateKind,
}
use astrbot_plugin_astrconti.ContextGraph.Closure.{companions, walk, components, dependency_groups}
use astrbot_plugin_astrconti.ContextGraph.Closure.{
  absorb, absorb_all, close_rounds, close_dependency_closure, out_of_fuel,
}
use astrbot_plugin_astrconti.ContextGraph.Selected.{
  IsClosure, close_dependency_closure-IsClosure, close_dependency_closure-ends,
}
use astrbot_plugin_astrconti.ContextGraph.Components.{IsSeparate, dependency_groups-IsSeparate}
use astrbot_plugin_astrconti.ContextGraph.Alike.{Agrees, IsAlike, dependency_groups-IsAlike}

abbrev block : String → CandidateKind → List String → CandidateBlock
block id kind events = record {
  block_id = id;
  slot = relevant_evidence;
  kind = kind;
  text = id;
  source_event_ids = events;
  score = 1;
  reason = "test";
  required = false;
  capsule_id = none;
  event_sequence = none;
  event_type = none;
  tool_name = none;
  required_selection_complete = false;
}

-- The dependency shares an event with the first decision.
abbrev first : CandidateBlock
first = block "a" decision ("e1" ∷ [])

abbrev second : CandidateBlock
second = block "b" decision ("e2" ∷ [])

abbrev link : CandidateBlock
link = block "c" dependency ("e1" ∷ [])

abbrev candidates : List CandidateBlock
candidates = first ∷ second ∷ link ∷ []

dependency_groups-candidates :
    dependency_groups candidates ≡ ok ((first ∷ link ∷ []) ∷ (second ∷ []) ∷ [])
unfolding dependency_groups components walk companions
dependency_groups-candidates = refl

dependency_groups-IsSeparate_example :
    (groups : List (List CandidateBlock)) × ((dependency_groups candidates ≡ ok groups)
      × (EachOf (λ (group : List CandidateBlock). 1 ≤ length group) groups
          × (((f : CandidateBlock → ℕ) → sum_by f (flatten groups) ≡ sum_by f candidates)
              × IsSeparate groups)))
dependency_groups-IsSeparate_example = dependency_groups-IsSeparate candidates refl

-- The first event is the dependency's.
abbrev of_first : CandidateBlock → Bool
of_first c = mem "e1" c.source_event_ids

agreed : EachOf (Agrees of_first candidates) candidates
unfolding companions
agreed = (
  (λ h. refl, (λ h. cc, (λ h. refl, tt))),
  ((λ h. cc, (λ h. refl, (λ h. cc, tt))), ((λ h. refl, (λ h. cc, (λ h. refl, tt))), tt)),
)

dependency_groups-IsAlike_example :
    EachOf (IsAlike of_first) ((first ∷ link ∷ []) ∷ (second ∷ []) ∷ [])
dependency_groups-IsAlike_example =
    dependency_groups-IsAlike of_first candidates ((first ∷ link ∷ []) ∷ (second ∷ []) ∷ [])
      dependency_groups-candidates agreed

-- The closure of the first block takes its dependency in.
close_dependency_closure-first :
    close_dependency_closure (first ∷ []) candidates 2 ≡ ok (first ∷ link ∷ [])
unfolding close_dependency_closure close_rounds absorb_all absorb companions
close_dependency_closure-first = refl

close_dependency_closure-IsClosure_example : IsClosure candidates (first ∷ []) 2 (first ∷ link ∷ [])
close_dependency_closure-IsClosure_example =
    close_dependency_closure-IsClosure (first ∷ []) candidates 2 (first ∷ link ∷ [])
      close_dependency_closure-first

close_dependency_closure-ends_example :
    close_dependency_closure (first ∷ []) candidates 2 ≢ err out_of_fuel
close_dependency_closure-ends_example = close_dependency_closure-ends (first ∷ []) candidates 2
