-- ===== src/Subscription/Examples.antt =====
-- Tests and witnesses.
use e_campus_server.Prelude.{◌≡◌, refl, Bool, none, some, [], ◌∷◌, ok}
use e_campus_server.Subscription.Data.{
  free, Overrides, TierLimits, Subscription, to_limits, apply_overrides, is_expired,
  apply_overrides_to,
}
use e_campus_server.Subscription.Postgres.{Tables, update_with_history, get}
use e_campus_server.Subscription.Service.{
  limits, get_limits, update_subscription, update_rounds, set_overrides, clear_overrides,
}
use e_campus_server.Subscription.Atomic.{
  World, shared, postgres, OneStep, update_with_history-Bumps, update_subscription-OneStep,
}
use e_campus_server.Subscription.Effects.{
  overridden, get_limits-set_overrides, get_limits-clear_overrides,
}
use e_campus_server.Subscription.Log.{
  swaps, sets_tier, execute_all, installed, LoggedRow, execute_all-LoggedRow,
}

abbrev free_limits : TierLimits
free_limits = record {
  tier = free;
  max_colleges = 3;
  max_departments_per_college = 5;
  max_programs_per_department = 5;
  max_students_per_program = 50;
  max_applications_per_user = 2;
  max_staff_users = 10;
  max_storage_bytes = 1000;
  max_file_size_bytes = 100;
  updated_at = 0;
}

abbrev fresh : Tables
fresh = installed 1 (free_limits ∷ [])

abbrev initial : Subscription
initial = record {
  id = 1;
  tier = free;
  max_colleges_override = none;
  max_departments_override = none;
  max_programs_override = none;
  max_students_override = none;
  max_applications_override = none;
  max_staff_override = none;
  max_storage_override = none;
  max_file_size_override = none;
  expires_at = none;
  updated_by = none;
  version = 0;
  updated_at = 0;
}

abbrev more_staff : Overrides
more_staff = record {
  max_colleges = none;
  max_departments = none;
  max_programs = none;
  max_students = none;
  max_applications = none;
  max_staff = some 40;
  max_storage = none;
  max_file_size = none;
}

abbrev more_colleges : Subscription
more_colleges = record initial { max_colleges_override = some 7 }

-- Someone raises the colleges between the read and the write: the second round sees it.
abbrev busy : World
busy = record {
  tables = fresh;
  others = (λ t. t) ∷ (λ t. (update_with_history more_colleges 0 5 9 t).1) ∷ [];
}

busy_result :
    (update_subscription shared 6 8 (λ s. apply_overrides_to s more_staff) busy).0
    ≡ ok (record more_colleges { max_staff_override = some 40; updated_by = some 8; version = 2 })
unfolding update_subscription update_rounds get update_with_history apply_overrides_to
busy_result = refl

update_subscription-OneStep_example :
    OneStep
      (λ s. apply_overrides_to s more_staff)
      6
      8
      busy
      (update_subscription shared 6 8 (λ s. apply_overrides_to s more_staff) busy)
update_subscription-OneStep_example =
    update_subscription-OneStep (λ s. apply_overrides_to s more_staff) 6 8 busy
      ((λ t r r' e e' same. cc), (update_with_history-Bumps more_colleges 0 5 9, tt))

not_expired : is_expired initial.expires_at 100 ≡ Bool.false
unfolding is_expired
not_expired = refl

get_limits-set_overrides_example :
    (get_limits postgres 100 (set_overrides postgres more_staff 6 8 fresh).1).0
    ≡ ok (limits (overridden more_staff (apply_overrides (to_limits free_limits) initial)))
get_limits-set_overrides_example =
    get_limits-set_overrides more_staff 100 6 8 fresh initial free_limits refl not_expired refl

get_limits-clear_overrides_example :
    (get_limits postgres 100 (clear_overrides postgres 6 8 fresh).1).0
    ≡ ok (limits (to_limits free_limits))
get_limits-clear_overrides_example =
    get_limits-clear_overrides 100 6 8 fresh initial free_limits refl not_expired refl

execute_all-LoggedRow_example :
    let t =
      execute_all
        (swaps more_colleges 0 5 9 ∷ sets_tier free_limits ∷ swaps initial 0 5 9 ∷ [])
        (installed 1 (free_limits ∷ [])) in
    LoggedRow t.subscription t.history
execute_all-LoggedRow_example =
    execute_all-LoggedRow
      (swaps more_colleges 0 5 9 ∷ sets_tier free_limits ∷ swaps initial 0 5 9 ∷ []) 1
      (free_limits ∷ [])
