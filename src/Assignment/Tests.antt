-- ===== src/Assignment/Tests.antt =====
-- The tracker at concrete inputs.
use cs_stratum_bridge.Base.{◌≡◌, some, List, [], ◌∷◌, Text, codes, Text-discrete}
use cs_stratum_bridge.Assignment.{new, assignee}
use cs_stratum_bridge.Assignment.History.{
  Call, assigns, removes, releases, run, holder, run-new-holder,
}

abbrev req : Text
req = codes "req-1"

abbrev alice : Text
alice = codes "alice"

abbrev bob : Text
bob = codes "bob"

-- Bob comes second and is refused; when Alice leaves, he is given the request.
abbrev handed_on : List Call
handed_on = assigns req alice 0 ∷ assigns req bob 1 ∷ releases alice ∷ assigns req bob 2 ∷ []

run-new-holder_example : assignee req (run new handed_on) ≡ some bob
unfolding holder Text-discrete
run-new-holder_example = run-new-holder req handed_on

abbrev between : List Call
between = releases bob ∷ removes (codes "req-2") ∷ assigns req bob 4 ∷ []
