-- ===== src/Auth/Laws.antt =====
-- Whom the route wrappers let in.
use priority_kb.Base.{Text, lit, text_eq→eq, text_eq_refl, Option, none, some, ◌≡◌, arith, ◌↔◌}
use priority_kb.Auth.{admin, handled, resolve_role_from_header, with_admin}

resolve_role_from_header-admin_iff :
    (raw : Option Text) → (resolve_role_from_header raw ≡ some admin) ↔ (raw ≡ some (lit "admin"))
unfolding resolve_role_from_header
resolve_role_from_header-admin_iff none = ground arith
resolve_role_from_header-admin_iff (some t) =
    ground (arith, text_eq→eq t (lit "admin"), text_eq_refl (lit "admin"))

module _ {ℓ} {A : Type ℓ} where
  -- `withAdmin` answers with a handler's response exactly when the role header is "admin" and the
  -- handler gives that response.
  pub with_admin-handled_iff :
      (raw : Option Text) (handler : Unit {0} → A) (response : A)
      → (with_admin raw handler ≡ handled response)
        ↔ ((raw ≡ some (lit "admin")) × (handler tt ≡ response))
  unfolding with_admin
  with_admin-handled_iff raw handler response =
      ground (arith, resolve_role_from_header-admin_iff raw)
