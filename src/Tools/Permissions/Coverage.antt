-- ===== src/Tools/Permissions/Coverage.antt =====
-- What `granted_allows` of app/tools/permissions.py decides, against the coverage that its
-- documentation describes.
use ai_agent_task_assistant.Common.{
  ℕ, zero, suc, ◌≤◌, Text, ◌≡◌, ◌≢◌, ◌↔◌, refl, ap, Bool, true, false, Option, none, some, List, [],
  ◌∷◌, ◌++◌, map, length, all, All, lower, strip, arith, length-append, text_eq_iff, text_eq_refl,
  keep_if,
}
use ai_agent_task_assistant.Tools.Schema.{ToolSchema}
use ai_agent_task_assistant.Tools.Permissions.{
  split_permission, match_grant, normalized, row, covered, all_below, decide_grants,
  decide_required, granted_allows, filter_loop, filter_by_permission,
}

-- a grant as the loop passes it on
abbrev pub covers : Text → Text → Bool
covers g r = match_grant r (lower (strip g))

-- A permission covers itself.
pub match_grant_self : (p : Text) → match_grant p p ≡ true
unfolding match_grant
match_grant_self p =
    let (action, resource) = split_permission p in
    ground (arith, text_eq_refl action, text_eq_refl resource)

-- the table has one entry for each pair, and so reaches the index that is read if there is a grant
length-row : (r : Text) (gs : List Text) → length (row r gs) ≡ length gs
length-row r [] = refl
length-row r (g ∷ gs) = omega (arith, length-row r gs)

length-covered : (rs gs : List Text) (g : Text) → length rs ≤ length (covered rs (g ∷ gs))
unfolding covered
length-covered [] gs g = omega arith
length-covered (r ∷ rs) gs g = omega (
  arith,
  length-append (row r (g ∷ gs)) (covered rs (g ∷ gs)),
  length-row r gs,
  length-covered rs gs g,
)

all_below_total : (bs : List Bool) (n : ℕ) → n ≤ length bs → all_below bs n ≢ none
unfolding all_below
all_below_total bs zero h = cc
all_below_total [] (suc n) h = elim h [ ]
all_below_total (b ∷ bs) (suc n) h = ground (arith, all_below_total bs n)

covered-nil : (rs : List Text) → covered rs [] ≡ []
unfolding covered
covered-nil [] = refl
covered-nil (r ∷ rs) = covered-nil rs

-- with a grant there is an answer
decide_grants_total :
    (rs : List Text) (g : Text) (gs : List Text) → decide_grants rs (g ∷ gs) ≢ none
unfolding decide_grants
decide_grants_total rs g gs =
    ground (arith, all_below_total (covered rs (g ∷ gs)) (length rs), length-covered rs gs g)

decide_required-eq-none_iff :
    (rs : List Text) (granted : Option (List Text))
    → (decide_required rs granted ≡ none) ↔ ((rs ≢ []) × (granted ≡ some []))
unfolding decide_grants all_below
decide_required-eq-none_iff [] granted = ground arith
decide_required-eq-none_iff (r ∷ rs) none = ground arith
decide_required-eq-none_iff (r ∷ rs) (some []) = (λ _. (λ e. cc, refl), λ _. rw covered-nil refl)
decide_required-eq-none_iff (r ∷ rs) (some (g ∷ gs)) =
    (λ e. absurd (decide_grants_total (r ∷ rs) g gs e), λ h. cc)

-- `granted_allows` raises an `IndexError`, in place of an answer, exactly when a tool asks for some
-- permission and the set of grants is given and empty.
pub granted_allows-eq-none_iff :
    (required : List Text) (granted : Option (List Text))
    → (granted_allows required granted ≡ none) ↔ ((normalized required ≢ []) × (granted ≡ some []))
unfolding granted_allows
granted_allows-eq-none_iff required granted =
    decide_required-eq-none_iff (normalized required) granted

all_below-append :
    (bs rest : List Bool) → all_below (bs ++ rest) (length bs) ≡ some (all (λ b. b) bs)
unfolding all_below
all_below-append [] rest = refl
all_below-append (true ∷ bs) rest = all_below-append bs rest
all_below-append (false ∷ bs) rest = refl

covered-single : (rs : List Text) (g : Text) → covered rs (g ∷ []) ≡ map (covers g) rs
unfolding covered
covered-single [] g = refl
covered-single (r ∷ rs) g = ap (λ t. covers g r ∷ t) (covered-single rs g)

all_below-map :
    (p : Text → Bool) (rs : List Text) → all_below (map p rs) (length rs) ≡ some (all p rs)
unfolding all_below
all_below-map p [] = refl
all_below-map p (r ∷ rs) = ground (arith, all_below-map p rs)

decide_grants-eq :
    (rs gs : List Text) (b : Bool)
    → length rs ≤ length (covered rs gs)
    → all_below (covered rs gs) (length rs) ≡ some b
    → decide_grants rs gs ≡ some b
unfolding decide_grants
decide_grants-eq rs gs b h e = ground arith

decide_required-single :
    (rs : List Text) (g : Text) → decide_required rs (some (g ∷ [])) ≡ some (all (covers g) rs)
decide_required-single [] g = refl
decide_required-single (r ∷ rs) g =
    decide_grants-eq (r ∷ rs) (g ∷ []) _ (length-covered (r ∷ rs) [] g)
      (rw covered-single (all_below-map (covers g) (r ∷ rs)))

-- With a single grant the answer is the documented one: every permission that the tool asks for is
-- covered by it.
pub granted_allows-single :
    (required : List Text) (g : Text)
    → granted_allows required (some (g ∷ [])) ≡ some (all (covers g) (normalized required))
unfolding granted_allows
granted_allows-single required g = decide_required-single (normalized required) g

-- A tool that asks for one permission is judged by the first grant alone: the others are not read.
pub granted_allows-first_grant :
    (required : List Text) (r g : Text) (gs : List Text)
    → normalized required ≡ r ∷ []
    → granted_allows required (some (g ∷ gs)) ≡ some (covers g r)
unfolding granted_allows decide_grants covered all_below
granted_allows-first_grant required r g gs e = rw e (ground arith)

all_below-prefix :
    (r : Text) (gs : List Text) (rest : List Bool) (n : ℕ)
    → n ≤ length gs
    → All (λ g. covers g r ≡ true) gs
    → all_below (row r gs ++ rest) n ≡ some true
unfolding all_below
all_below-prefix r gs rest zero h k = refl
all_below-prefix r [] rest (suc n) h k = elim h [ ]
all_below-prefix r (g ∷ gs) rest (suc n) h (k, ks) =
    rw k (all_below-prefix r gs rest n (omega arith) ks)

decide_grants-first_permission :
    (r : Text) (rs gs : List Text)
    → length (r ∷ rs) ≤ length gs
    → All (λ g. covers g r ≡ true) gs
    → decide_grants (r ∷ rs) gs ≡ some true
decide_grants-first_permission r rs [] h k = elim h [ ]
decide_grants-first_permission r rs (g ∷ gs) h k =
    decide_grants-eq (r ∷ rs) (g ∷ gs) true (length-covered (r ∷ rs) gs g)
      (unfold covered in all_below-prefix r (g ∷ gs) (covered rs (g ∷ gs)) (length (r ∷ rs)) h k)

-- Where a tool asks for no more permissions than there are grants, and each grant covers the first
-- of them, the tool is allowed, whether or not anything covers the others.
pub granted_allows-first_permission :
    (required : List Text) (r : Text) (rs gs : List Text)
    → normalized required ≡ r ∷ rs
    → length (r ∷ rs) ≤ length gs
    → All (λ g. covers g r ≡ true) gs
    → granted_allows required (some gs) ≡ some true
unfolding granted_allows
granted_allows-first_permission required r rs gs e h k =
    rw e (decide_grants-first_permission r rs gs h k)

filter_loop-single :
    (schemas : List ToolSchema) (g : Text)
    → filter_loop schemas (g ∷ [])
      ≡ some (keep_if (λ s. all (covers g) (normalized s.permissions)) schemas)
unfolding filter_loop
filter_loop-single [] g = refl
filter_loop-single (s ∷ schemas) g =
    rw (granted_allows-single s.permissions g, filter_loop-single schemas g) refl

-- With a single grant, which is not the empty text, the listing of the tools never raises and
-- holds, in their order, just the tools all of whose permissions the grant covers.
pub filter_by_permission-single :
    (schemas : List ToolSchema) (g : Text)
    → g ≢ []
    → filter_by_permission schemas (some (g ∷ []))
      ≡ some (keep_if (λ s. all (covers g) (normalized s.permissions)) schemas)
unfolding filter_by_permission
filter_by_permission-single schemas g h =
    ground (arith, text_eq_iff g [], filter_loop-single schemas g)
