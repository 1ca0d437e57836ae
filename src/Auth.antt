-- ===== src/Auth.antt =====
-- lib/auth.ts: roles, the route wrappers and the sensitivity allow-list.
pub mod Laws
use priority_kb.Base.{
  Text, lit, text_eq, ℕ, Option, none, some, List, [], ◌∷◌, if◌then◌else◌, Bool, true, false,
}

pub data Role : Type 0 where
  admin user : Role

pub data Sensitivity : Type 0 where
  public internal restricted : Sensitivity

unfoldable pub resolve_role_from_header : Option Text → Option Role
resolve_role_from_header none = none
resolve_role_from_header (some raw) =
    if text_eq raw (lit "admin")
    then some admin
    else if text_eq raw (lit "user")
    then some user
    else none

-- What a wrapped route answers: a rejection with its status, or the handler's own response.
pub data Gate {ℓ} (A : Type ℓ) : Type ℓ where
  rejected : (status : ℕ) → Gate A
  handled : A → Gate A

module _ {ℓ} {A : Type ℓ} where
  -- `withAdmin`, with the role header and the handler as arguments.
  unfoldable pub with_admin : Option Text → (Unit {0} → A) → Gate A
  with_admin raw handler = elim (resolve_role_from_header raw) [
    | none ↦ rejected 401
    | some admin ↦ handled (handler tt)
    | some user ↦ rejected 403
  ]

  unfoldable pub with_user_or_admin : Option Text → (Role → A) → Gate A
  with_user_or_admin raw handler = elim (resolve_role_from_header raw) [
    | none ↦ rejected 401
    | some role ↦ handled (handler role)
  ]

unfoldable pub sensitivity_allowed_for_role : Role → List Sensitivity
sensitivity_allowed_for_role admin = public ∷ internal ∷ restricted ∷ []
sensitivity_allowed_for_role user = public ∷ internal ∷ []
