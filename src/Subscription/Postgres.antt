-- ===== src/Subscription/Postgres.antt =====
-- internal/subscription/postgres: the statements on the subscription's row, the tiers and the history.
use e_campus_server.Prelude.{
  ℕ, zero, suc, ◌+◌, Bool, true, false, ◌&&◌, Option, none, some, List, [], ◌∷◌, ◌==◌, any, find,
  update_where, if◌then◌else◌, Result, ok, err, Method, Done,
}
use e_campus_server.Subscription.Data.{
  Error, subscription_not_found, tier_not_found, conflict, failure, Tier, free, basic, premium,
  other, TierLimits, Subscription, History,
}

-- The table of the subscription has one row at most; the newest change comes first in the history.
pub record Tables : Type 0 where
  pub subscription : Option Subscription
  pub tier_limits : List TierLimits
  pub history : List History
  pub now : ℕ

abbrev pub same_tier : Tier → Tier → Bool
same_tier free free = true
same_tier basic basic = true
same_tier premium premium = true
same_tier (other a) (other b) = a == b
same_tier _ _ = false

abbrev pub found : Option Subscription → Result Error Subscription
found none = err subscription_not_found
found (some sub) = ok sub

unfoldable pub get : Method Tables Error Subscription
get t = (found t.subscription, t)

abbrev pub found_tier : Option TierLimits → Result Error TierLimits
found_tier none = err tier_not_found
found_tier (some tl) = ok tl

unfoldable pub get_tier_limits : Tier → Method Tables Error TierLimits
get_tier_limits tier t = (found_tier (find (λ tl. same_tier tl.tier tier) t.tier_limits), t)

-- The columns that `UpdateTierLimits` writes.
abbrev pub set_tier_columns : TierLimits → ℕ → TierLimits → TierLimits
set_tier_columns tl now r = record r {
  max_colleges = tl.max_colleges;
  max_departments_per_college = tl.max_departments_per_college;
  max_programs_per_department = tl.max_programs_per_department;
  max_students_per_program = tl.max_students_per_program;
  max_applications_per_user = tl.max_applications_per_user;
  max_staff_users = tl.max_staff_users;
  updated_at = now;
}

abbrev pub no_rows : ℕ
no_rows = 2000

-- A missing row is the driver's `sql.ErrNoRows`.
unfoldable pub update_tier_limits : TierLimits → Method Tables Error Done
update_tier_limits tl t =
    if any (λ r. same_tier r.tier tl.tier) t.tier_limits
    then (
      ok tt,
      record t {
        tier_limits =
            update_where (λ r. same_tier r.tier tl.tier) (set_tier_columns tl t.now) t.tier_limits;
      },
    )
    else (err (failure no_rows), t)

-- The columns that `UpdateWithHistory` writes.
abbrev pub set_columns : Subscription → ℕ → ℕ → Subscription → Subscription
set_columns sub changed_by now r = record r {
  tier = sub.tier;
  max_colleges_override = sub.max_colleges_override;
  max_departments_override = sub.max_departments_override;
  max_programs_override = sub.max_programs_override;
  max_students_override = sub.max_students_override;
  max_applications_override = sub.max_applications_override;
  max_staff_override = sub.max_staff_override;
  max_storage_override = sub.max_storage_override;
  max_file_size_override = sub.max_file_size_override;
  expires_at = sub.expires_at;
  updated_by = some changed_by;
  updated_at = now;
  version = r.version + 1;
}

abbrev pub history_row : Subscription → ℕ → ℕ → ℕ → History
history_row sub reason changed_by now = record {
  tier = sub.tier;
  max_colleges_override = sub.max_colleges_override;
  max_departments_override = sub.max_departments_override;
  max_programs_override = sub.max_programs_override;
  max_students_override = sub.max_students_override;
  max_applications_override = sub.max_applications_override;
  max_staff_override = sub.max_staff_override;
  max_storage_override = sub.max_storage_override;
  max_file_size_override = sub.max_file_size_override;
  expires_at = sub.expires_at;
  changed_by = some changed_by;
  changed_at = now;
  change_reason = reason;
}

abbrev pub at_version : Subscription → ℕ → Subscription → Bool
at_version sub expected r = r.id == sub.id && r.version == expected

abbrev pub written : Subscription → ℕ → ℕ → Subscription → Tables → Tables
written sub reason changed_by r t = record t {
  subscription = some (set_columns sub changed_by t.now r);
  history = history_row sub reason changed_by t.now ∷ t.history;
}

-- `sub.UpdatedBy = changedBy`
abbrev pub signed : Subscription → ℕ → Subscription
signed sub changed_by = record sub { updated_by = some changed_by }

-- The update and its history row, with the caller's subscription as it becomes; a tier that has no limits violates the foreign key.
abbrev pub swap :
    Subscription
    → ℕ
    → ℕ
    → ℕ
    → Tables
    → Option Subscription
    → Result Error (Subscription × ℕ) × Tables
swap sub expected reason changed_by t none = (err conflict, t)
swap sub expected reason changed_by t (some r) =
    if at_version sub expected r
    then (if any (λ tl. same_tier tl.tier sub.tier) t.tier_limits
        then (ok (signed sub changed_by, r.version + 1), written sub reason changed_by r t)
        else (err (failure 23503), t))
    else (err conflict, t)

unfoldable pub update_with_history :
    Subscription → ℕ → ℕ → ℕ → Method Tables Error (Subscription × ℕ)
update_with_history sub expected reason changed_by t =
    swap sub expected reason changed_by t t.subscription

abbrev first : ℕ → List History → List History
first zero rows = []
first (suc n) [] = []
first (suc n) (h ∷ rows) = h ∷ first n rows

unfoldable pub get_history : ℕ → Method Tables Error (List History)
get_history limit t = (ok (first limit t.history), t)
