-- ===== src/Tools/Security/Matrix.antt =====
-- Which calls the role matrix of app/tools/security.py lets through.
use ai_agent_task_assistant.Common.{
  String, Text, codes, text_eq_iff, ◌≡◌, ◌↔◌, ◌⊎◌, inl, inr, true, some, Option-cases, lookup,
  eq_iff, arith,
}
use mathlib.Core.Path.{subst}
use ai_agent_task_assistant.Tools.Security.{
  category_system, category_sql, category_file, category_network, role_guest, role_user, role_admin,
  Role, guest, user, admin, role_name, valid_role, role_permissions, or_false, effective_role,
  is_role_allowed,
}

valid_role_iff : (t : Text) (r : Role) → (valid_role t ≡ some r) ↔ (t ≡ role_name r)
unfolding valid_role
valid_role_iff t guest = ground (
  arith,
  text_eq_iff t (codes role_guest),
  text_eq_iff t (codes role_user),
  text_eq_iff t (codes role_admin),
)
valid_role_iff t user = ground (
  arith,
  text_eq_iff t (codes role_guest),
  text_eq_iff t (codes role_user),
  text_eq_iff t (codes role_admin),
)
valid_role_iff t admin = ground (
  arith,
  text_eq_iff t (codes role_guest),
  text_eq_iff t (codes role_user),
  text_eq_iff t (codes role_admin),
)

abbrev IsCategory : String → Type 0
IsCategory c =
    (c ≡ category_system) ⊎ (c ≡ category_sql) ⊎ (c ≡ category_file) ⊎ (c ≡ category_network)

-- the categories that a role may call
abbrev pub Allows : Role → String → Type 0
Allows guest category = category ≡ category_system
Allows user category = IsCategory category
Allows admin category = IsCategory category

role_permissions_iff :
    (r : Role) (c : String) → (or_false (lookup c (role_permissions r)) ≡ true) ↔ Allows r c
unfolding lookup
role_permissions_iff guest c = ground (
  arith,
  eq_iff category_system c,
  eq_iff category_sql c,
  eq_iff category_file c,
  eq_iff category_network c,
)
role_permissions_iff user c = ground (
  arith,
  eq_iff category_system c,
  eq_iff category_sql c,
  eq_iff category_file c,
  eq_iff category_network c,
)
role_permissions_iff admin c = ground (
  arith,
  eq_iff category_system c,
  eq_iff category_sql c,
  eq_iff category_file c,
  eq_iff category_network c,
)

same_role : {t : Text} {r : Role} → valid_role t ≡ some r → (r' : Role) → t ≡ role_name r' → r' ≡ r
same_role {t} h r' e = cc ((valid_role_iff t r').1 e)

-- A call is let through exactly when the role, in lower case and a guest's where it is empty, is a
-- known one that may call the category: a guest `system` alone, a user and an admin all four.
pub is_role_allowed_iff :
    (role category : String)
    → (is_role_allowed role category ≡ true)
      ↔ ((r : Role) × (effective_role role ≡ role_name r) × Allows r category)
unfolding is_role_allowed
is_role_allowed_iff role category = elim (Option-cases (valid_role (effective_role role))) [
  | inl unknown ↦
      rw (unknown, is_role_allowed)
        (λ h. cc, λ h. cc (unknown, (valid_role_iff (effective_role role) h.0).1 h.1))
  | inr (r, known) ↦
      rw (known, is_role_allowed)
        (
          λ h. (r, (valid_role_iff _ r).0 known, (role_permissions_iff r category).0 h),
          λ h.
              (role_permissions_iff r category).1
                (subst (λ x. Allows x category) (same_role known h.0 h.1) h.2),
        )
]
