-- ===== src/Scenarios/Agreements.antt =====
-- Permissions, grants and conditions on concrete inputs.
use go_cell_protocol.Prelude.{String, ◌≡◌, ◌↔◌, refl, true, false, [], ◌∷◌, some}
use go_cell_protocol.Value.{Value, str}
use go_cell_protocol.Agreement.Grant.{Grant, grant_keypath_matches, covers_exactly, check_grant}
use go_cell_protocol.Agreement.Grant.Laws.{
  KeypathMatches, grant_keypath_matches_iff, check_grant_trans,
}
use go_cell_protocol.Agreement.Condition.{
  Condition, any_empty, conditions_match, policies_match, policy,
}
use go_cell_protocol.Agreement.Condition.Laws.{count, policies, conditions_match_sound}
use go_cell_protocol.Scenarios.{codec}

abbrev grant_of : String → Grant
grant_of permission = record { uuid = "g"; name = ""; keypath = "feed"; permission = permission }

abbrev marshal : Value → String
marshal v = "text"

abbrev member : Condition
member = record {
  lookup = some (record {
    uuid = "l";
    name = "member";
    keypath = "target.member";
    expected_value = str "yes";
  });
}

grant_keypath_matches_iff_example :
    (grant_keypath_matches "chat.*" "chat.messages" ≡ true)
    ↔ KeypathMatches "chat.*" "chat.messages"
grant_keypath_matches_iff_example = grant_keypath_matches_iff "chat.*" "chat.messages"

check_grant_trans_example : check_grant (grant_of "rwx" ∷ []) (grant_of "r--") ≡ true
unfolding check_grant covers_exactly
check_grant_trans_example =
    check_grant_trans (grant_of "rwx" ∷ []) (grant_of "rw-") (grant_of "r--") refl refl

conditions_match_sound_example :
    (any_empty (policies codec marshal (member ∷ [])) ≡ false)
    × ((p : String)
        → count p (policies codec marshal (member ∷ []))
          ≡ count p (policies codec marshal (member ∷ [])))
unfolding conditions_match policies_match policy
conditions_match_sound_example =
    conditions_match_sound codec marshal (member ∷ []) (member ∷ []) refl
