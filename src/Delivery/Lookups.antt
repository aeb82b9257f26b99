-- ===== src/Delivery/Lookups.antt =====
-- GET /api/v1/users/{user_id}: which reply each caller gets.
use fastdjango.Base.{
  true, ◌≡◌, refl, List, [], ◌∷◌, Option, none, some, codes, ◌==◌, int_eq, keep, inl, inr,
  Bool-cases, Option-cases, if◌then◌else◌,
}
use fastdjango.Base.Int.{ℤ}
use fastdjango.Errors.{
  Exception, error, isinstance, mro, class_of, user_permission_denied_error,
  authenticated_user_not_found_error,
}
use fastdjango.Outcome.{Outcome, ok, raise}
use fastdjango.Model.{User, UserModel}
use fastdjango.Engine.{Engine, IsRelational, first, is_integer}
use fastdjango.Engine.Queries.{IsConsistent}
use fastdjango.Engine.Consistency.{users-AtMostOne_active}
use fastdjango.UserRepository.{user_from_model, mapped}
use fastdjango.UserRepository.Lookup.{get_active_by_id_lem}
use fastdjango.UnitOfWork.{World}
use fastdjango.UnitOfWork.Scope.{IsHealthy, entered, with_uow-returns, with_uow-raises}
use fastdjango.Accounts.{check_access}
use fastdjango.UseCases.Accounts.{staff_user_lookup, staff_user_lookup_body}
use fastdjango.UseCases.Refresh.{at_rest}
use fastdjango.UseCases.Revocation.{active_users}
use fastdjango.Delivery.Bearer.{bearer_authentication_error}
use fastdjango.Delivery.Controllers.{
  http_exception_of, UserSchema, staff_user_lookup_handler, staff_user_lookup_endpoint,
}

-- The reply to a caller, by the active users with the caller's key and the row that is asked for.
unfoldable pub found_reply : Option UserModel → Outcome UserSchema
found_reply none = raise (http_exception_of 404 (codes "User not found"))
found_reply (some m) = ok (record {
  id = m.id;
  username = m.username;
  email = m.email;
  first_name = m.first_name;
  last_name = m.last_name;
  is_staff = m.is_staff;
  is_superuser = m.is_superuser;
})

unfoldable pub lookup_reply : List UserModel → Option UserModel → Outcome UserSchema
unfolding found_reply bearer_authentication_error
lookup_reply [] target = raise (bearer_authentication_error (codes "User not found"))
lookup_reply (actor ∷ rest) target =
    if actor.is_staff
    then found_reply target
    else raise (http_exception_of 403 (codes "Permission denied"))

-- The outcome of the use case itself.
abbrev lookup_outcome : List UserModel → Option UserModel → Outcome (Option User)
unfolding mapped
lookup_outcome [] target = raise (error authenticated_user_not_found_error)
lookup_outcome (actor ∷ rest) target =
    if actor.is_staff then ok (mapped target) else raise (error user_permission_denied_error)

module _ {Db : Type 0} (engine : Engine Db) (laws : IsRelational engine)
    (healthy : IsHealthy engine) (w : World Db) (out : w.scope ≡ none)
    (c : IsConsistent engine w.committed) (actor_user_id user_id : ℤ)
    (key : is_integer user_id ≡ true) where
  abbrev target : Option UserModel
  target = first (keep (λ m. m.id == user_id) (engine.users w.committed))

  refused :
      (e : Exception)
      → staff_user_lookup_body engine user_id actor_user_id (entered engine w)
        ≡ (raise e, entered engine w)
      → staff_user_lookup engine user_id actor_user_id w ≡ (raise e, at_rest w.committed w.draws)
  unfolding staff_user_lookup
  refused e run =
      with_uow-raises engine (staff_user_lookup_body engine user_id actor_user_id) w e
        (entered engine w) w.committed healthy out run refl

  staff_user_lookup_lem : staff_user_lookup engine user_id actor_user_id w ≡ (
    lookup_outcome (active_users actor_user_id (engine.users w.committed)) target,
    at_rest w.committed w.draws,
  )
  unfolding staff_user_lookup staff_user_lookup_body check_access user_from_model
  staff_user_lookup_lem =
      elim (users-AtMostOne_active (engine.users w.committed) actor_user_id c.users_consistent) [
        | inl nobody ↦ rw nobody (
            refused (error authenticated_user_not_found_error)
              (rw (get_active_by_id_lem engine laws w.committed actor_user_id c, nobody)))
        | inr (actor, alone) ↦ elim (Bool-cases actor.is_staff) [
          | inl staff ↦
              rw (alone, staff)
                (with_uow-returns engine (staff_user_lookup_body engine user_id actor_user_id) w
                  (mapped target) (entered engine w) w.committed healthy out
                  (rw (
                    get_active_by_id_lem engine laws w.committed actor_user_id c,
                    alone,
                    staff,
                    laws.get_user_lem user_id w.committed key,
                  ))
                  refl)
          | inr plain ↦
              rw (alone, plain)
                (refused (error user_permission_denied_error)
                  (rw (get_active_by_id_lem engine laws w.committed actor_user_id c, alone, plain)))
        ]
      ]

  -- On a healthy relational database with consistent tables, for a key of four bytes, the lookup replies with status 401 and the
  -- bearer challenge to a caller who is no active user, with 403 to one who is not on the staff,
  -- with 404 where no row has the key, and else with the public fields of the row, each as it is stored;
  -- nothing is written.
  pub staff_user_lookup_endpoint_lem : staff_user_lookup_endpoint engine actor_user_id user_id w ≡ (
    lookup_reply (active_users actor_user_id (engine.users w.committed)) target,
    at_rest w.committed w.draws,
  )
  unfolding staff_user_lookup_endpoint staff_user_lookup_handler isinstance mro class_of
      bearer_authentication_error user_from_model lookup_reply found_reply
  staff_user_lookup_endpoint_lem =
      elim (users-AtMostOne_active (engine.users w.committed) actor_user_id c.users_consistent) [
        | inl nobody ↦ rw (staff_user_lookup_lem, nobody)
        | inr (actor, alone) ↦ elim (Bool-cases actor.is_staff) [
          | inl staff ↦ elim (Option-cases target) [
            | inl missing ↦ rw (staff_user_lookup_lem, alone, staff, missing)
            | inr (m, found) ↦ rw (staff_user_lookup_lem, alone, staff, found)
          ]
          | inr plain ↦ rw (staff_user_lookup_lem, alone, plain)
        ]
      ]
