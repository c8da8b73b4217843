-- ===== src/Tools/Permissions.antt =====
-- app/tools/permissions.py: permission strings and what a set of grants allows. A Python set is
-- the list of its members in the order in which the loop meets them. `none` is an `IndexError`.
pub mod Coverage
use ai_agent_task_assistant.Common.{
  ℕ, zero, suc, Text, codes, text_eq, lower, strip, starts_with, before, after, Bool, true, false,
  not, ◌&&◌, ◌||◌, Option, none, some, List, [], ◌∷◌, ◌++◌, map, length, leb, keep_if,
  if◌then◌else◌,
}
use ai_agent_task_assistant.Tools.Schema.{ToolSchema}

abbrev pub wildcard : Text
wildcard = codes "*"

abbrev pub colon : ℕ
colon = b':'

unfoldable pub split_permission : Text → Text × Text
unfolding before after strip lower
split_permission permission =
    (lower (strip (before colon permission)), lower (strip (after colon permission)))

unfoldable pub match_grant : Text → Text → Bool
match_grant required grant =
    let (r_action, r_resource) = split_permission required in
    let (g_action, g_resource) = split_permission grant in
    if text_eq grant wildcard
    then true
    else if not (text_eq g_action r_action)
    then false
    else if text_eq g_resource wildcard || text_eq g_resource []
    then true
    else text_eq g_resource r_resource || starts_with r_resource (g_resource ++ codes ".")

-- `[r.strip().lower() for r in required if r and r.strip()]`
unfoldable pub normalized : List Text → List Text
normalized required =
    map (λ r. lower (strip r))
      (keep_if (λ r. not (text_eq r []) && not (text_eq (strip r) [])) required)

abbrev row : Text → List Text → List Bool
row r granted = map (λ g. match_grant r (lower (strip g))) granted

-- `[_match_grant(r, …) for r in required for g in granted]`: one flat list
unfoldable pub covered : List Text → List Text → List Bool
covered [] granted = []
covered (r ∷ required) granted = row r granted ++ covered required granted

-- `all(covered[i] for i in range(n))`: it stops at the first `False`, and an index past the end
-- raises
unfoldable pub all_below : List Bool → ℕ → Option Bool
all_below bs zero = some true
all_below [] (suc n) = none
all_below (b ∷ bs) (suc n) = let rest = all_below bs n in if b then rest else some false

abbrev and_long : Bool → Option Bool → Option Bool
and_long long none = none
and_long long (some ok) = some (ok && long)

decide_grants : List Text → List Text → Option Bool
decide_grants required granted =
    let table = covered required granted in
    and_long (leb (length required) (length table)) (all_below table (length required))

abbrev decide_required : List Text → Option (List Text) → Option Bool
decide_required [] granted = some true
decide_required (r ∷ required) none = some true
decide_required (r ∷ required) (some granted) = decide_grants (r ∷ required) granted

unfoldable pub granted_allows : List Text → Option (List Text) → Option Bool
unfolding decide_grants
granted_allows required granted = decide_required (normalized required) granted

abbrev keep_allowed : Option Bool → ToolSchema → Option (List ToolSchema) → Option (List ToolSchema)
keep_allowed none schema rest = none
keep_allowed (some ok) schema none = none
keep_allowed (some ok) schema (some rest) = some (if ok then schema ∷ rest else rest)

-- the loop of `filter_by_permission`, on `granted_set`
filter_loop : List ToolSchema → List Text → Option (List ToolSchema)
filter_loop [] granted = some []
filter_loop (s ∷ schemas) granted =
    keep_allowed (granted_allows s.permissions (some granted)) s (filter_loop schemas granted)

unfoldable pub filter_by_permission :
    List ToolSchema → Option (List Text) → Option (List ToolSchema)
unfolding filter_loop
filter_by_permission schemas none = some schemas
filter_by_permission schemas (some granted) =
    filter_loop schemas (keep_if (λ g. not (text_eq g [])) granted)
