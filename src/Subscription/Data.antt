-- ===== src/Subscription/Data.antt =====
-- internal/subscription/subscription.go: the tier, its limits, the overrides, and the rules on them.
-- Limits are natural numbers: the handlers accept none below 1.
use e_campus_server.Prelude.{
  ℕ, ◌-◌, Bool, true, false, ◌||◌, Option, none, some, ltb, leb, is_set, or_else, value_or,
  if◌then◌else◌,
}

pub data Error : Type 0 where
  subscription_not_found tier_not_found invalid_tier subscription_expired conflict : Error
  failure : ℕ → Error

pub data Tier : Type 0 where
  free basic premium : Tier
  other : ℕ → Tier

unfoldable pub valid_tier : Tier → Bool
valid_tier free = true
valid_tier basic = true
valid_tier premium = true
valid_tier (other _) = false

-- The effective ceilings.
pub record Limits : Type 0 where
  pub max_colleges : ℕ
  pub max_departments_per_college : ℕ
  pub max_programs_per_department : ℕ
  pub max_students_per_program : ℕ
  pub max_applications_per_user : ℕ
  pub max_staff_users : ℕ
  pub max_storage_bytes : ℕ
  pub max_file_size_bytes : ℕ

-- A partial set of overrides.
pub record Overrides : Type 0 where
  pub max_colleges : Option ℕ
  pub max_departments : Option ℕ
  pub max_programs : Option ℕ
  pub max_students : Option ℕ
  pub max_applications : Option ℕ
  pub max_staff : Option ℕ
  pub max_storage : Option ℕ
  pub max_file_size : Option ℕ

pub record TierLimits : Type 0 where
  pub tier : Tier
  pub max_colleges : ℕ
  pub max_departments_per_college : ℕ
  pub max_programs_per_department : ℕ
  pub max_students_per_program : ℕ
  pub max_applications_per_user : ℕ
  pub max_staff_users : ℕ
  pub max_storage_bytes : ℕ
  pub max_file_size_bytes : ℕ
  pub updated_at : ℕ

pub record Subscription : Type 0 where
  pub id : ℕ
  pub tier : Tier
  pub max_colleges_override : Option ℕ
  pub max_departments_override : Option ℕ
  pub max_programs_override : Option ℕ
  pub max_students_override : Option ℕ
  pub max_applications_override : Option ℕ
  pub max_staff_override : Option ℕ
  pub max_storage_override : Option ℕ
  pub max_file_size_override : Option ℕ
  pub expires_at : Option ℕ
  pub updated_by : Option ℕ
  pub version : ℕ
  pub updated_at : ℕ

pub record History : Type 0 where
  pub tier : Tier
  pub max_colleges_override : Option ℕ
  pub max_departments_override : Option ℕ
  pub max_programs_override : Option ℕ
  pub max_students_override : Option ℕ
  pub max_applications_override : Option ℕ
  pub max_staff_override : Option ℕ
  pub max_storage_override : Option ℕ
  pub max_file_size_override : Option ℕ
  pub expires_at : Option ℕ
  pub changed_by : Option ℕ
  pub changed_at : ℕ
  pub change_reason : ℕ

unfoldable pub to_limits : TierLimits → Limits
to_limits tl = record {
  max_colleges = tl.max_colleges;
  max_departments_per_college = tl.max_departments_per_college;
  max_programs_per_department = tl.max_programs_per_department;
  max_students_per_program = tl.max_students_per_program;
  max_applications_per_user = tl.max_applications_per_user;
  max_staff_users = tl.max_staff_users;
  max_storage_bytes = tl.max_storage_bytes;
  max_file_size_bytes = tl.max_file_size_bytes;
}

unfoldable pub apply_overrides : Limits → Subscription → Limits
apply_overrides base sub = record {
  max_colleges = value_or sub.max_colleges_override base.max_colleges;
  max_departments_per_college =
      value_or sub.max_departments_override base.max_departments_per_college;
  max_programs_per_department = value_or sub.max_programs_override base.max_programs_per_department;
  max_students_per_program = value_or sub.max_students_override base.max_students_per_program;
  max_applications_per_user = value_or sub.max_applications_override base.max_applications_per_user;
  max_staff_users = value_or sub.max_staff_override base.max_staff_users;
  max_storage_bytes = value_or sub.max_storage_override base.max_storage_bytes;
  max_file_size_bytes = value_or sub.max_file_size_override base.max_file_size_bytes;
}

unfoldable pub has_overrides : Subscription → Bool
has_overrides sub =
    is_set sub.max_colleges_override
    || is_set sub.max_departments_override
    || is_set sub.max_programs_override
    || is_set sub.max_students_override
    || is_set sub.max_applications_override
    || is_set sub.max_staff_override
    || is_set sub.max_storage_override
    || is_set sub.max_file_size_override

-- `IsExpired`; `now` stands for the call of `time.Now`.
unfoldable pub is_expired : Option ℕ → ℕ → Bool
is_expired none now = false
is_expired (some expires_at) now = ltb expires_at now

unfoldable pub can_create : ℕ → ℕ → Bool
can_create current_count limit = ltb current_count limit

unfoldable pub remaining : ℕ → ℕ → ℕ
remaining current_count limit = if ltb current_count limit then limit - current_count else 0

unfoldable pub apply_overrides_to : Subscription → Overrides → Subscription
apply_overrides_to sub o = record sub {
  max_colleges_override = or_else o.max_colleges sub.max_colleges_override;
  max_departments_override = or_else o.max_departments sub.max_departments_override;
  max_programs_override = or_else o.max_programs sub.max_programs_override;
  max_students_override = or_else o.max_students sub.max_students_override;
  max_applications_override = or_else o.max_applications sub.max_applications_override;
  max_staff_override = or_else o.max_staff sub.max_staff_override;
  max_storage_override = or_else o.max_storage sub.max_storage_override;
  max_file_size_override = or_else o.max_file_size sub.max_file_size_override;
}

unfoldable pub clear_overrides_on : Subscription → Subscription
clear_overrides_on sub = record sub {
  max_colleges_override = none;
  max_departments_override = none;
  max_programs_override = none;
  max_students_override = none;
  max_applications_override = none;
  max_staff_override = none;
  max_storage_override = none;
  max_file_size_override = none;
}

-- `DefaultHistoryLimit`; a negative size is treated like zero.
unfoldable pub default_history_limit : ℕ → ℕ
default_history_limit limit = if leb limit 0 then 50 else limit
