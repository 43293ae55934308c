-- ===== src/Subscription/Effects.antt =====
-- What GetLimits of internal/subscription/subscription.go answers after an update, one request at a time.
use e_campus_server.Prelude.{
  ℕ, ◌≡◌, refl, ap, ◌∙◌, sym, subst, true, false, Option, none, some, List, ◌==◌, ==_iff, any, find,
  is_set, is_set-find, or_else, value_or, ok,
}
use e_campus_server.Subscription.Data.{
  Tier, Limits, Overrides, TierLimits, Subscription, to_limits, apply_overrides, is_expired,
  apply_overrides_to, clear_overrides_on,
}
use e_campus_server.Subscription.Postgres.{
  Tables, get, get_tier_limits, update_with_history, same_tier, written, set_columns,
}
use e_campus_server.Subscription.Service.{
  limits, get_limits, update_rounds, update_subscription, set_overrides, clear_overrides,
}
use e_campus_server.Subscription.Atomic.{postgres}

-- Limits with the given ones in place of theirs.
abbrev pub overridden : Overrides → Limits → Limits
overridden o l = record {
  max_colleges = value_or o.max_colleges l.max_colleges;
  max_departments_per_college = value_or o.max_departments l.max_departments_per_college;
  max_programs_per_department = value_or o.max_programs l.max_programs_per_department;
  max_students_per_program = value_or o.max_students l.max_students_per_program;
  max_applications_per_user = value_or o.max_applications l.max_applications_per_user;
  max_staff_users = value_or o.max_staff l.max_staff_users;
  max_storage_bytes = value_or o.max_storage l.max_storage_bytes;
  max_file_size_bytes = value_or o.max_file_size l.max_file_size_bytes;
}

layers : (o s : Option ℕ) (base : ℕ) → value_or (or_else o s) base ≡ value_or o (value_or s base)
layers none s base = refl
layers (some n) s base = refl

apply_overrides-apply_overrides_to :
    (base : Limits) (sub : Subscription) (o : Overrides)
    → apply_overrides base (apply_overrides_to sub o) ≡ overridden o (apply_overrides base sub)
unfolding apply_overrides apply_overrides_to
apply_overrides-apply_overrides_to base sub o =
    rw
      (
        layers o.max_colleges sub.max_colleges_override base.max_colleges,
        layers o.max_departments sub.max_departments_override base.max_departments_per_college,
        layers o.max_programs sub.max_programs_override base.max_programs_per_department,
        layers o.max_students sub.max_students_override base.max_students_per_program,
        layers o.max_applications sub.max_applications_override base.max_applications_per_user,
        layers o.max_staff sub.max_staff_override base.max_staff_users,
        layers o.max_storage sub.max_storage_override base.max_storage_bytes,
        layers o.max_file_size sub.max_file_size_override base.max_file_size_bytes,
      )
      refl

apply_overrides-clear_overrides_on :
    (base : Limits) (sub : Subscription) → apply_overrides base (clear_overrides_on sub) ≡ base
unfolding apply_overrides clear_overrides_on
apply_overrides-clear_overrides_on base sub = refl

same_number : (n : ℕ) → (n == n) ≡ true
same_number n = (==_iff n n).1 refl

-- An update that keeps the id, and gives a tier that has limits.
update_subscription-ok :
    (apply : Subscription → Subscription) (reason by : ℕ) (t : Tables) (sub : Subscription)
    → t.subscription ≡ some sub
    → (apply sub).id ≡ sub.id
    → any (λ tl. same_tier tl.tier (apply sub).tier) t.tier_limits ≡ true
    → (update_subscription postgres reason by apply t).1 ≡ written (apply sub) reason by sub t
unfolding update_subscription update_rounds get update_with_history
update_subscription-ok apply reason by t sub there id tiered =
    rw (there, id, same_number sub.id, same_number sub.version, tiered) refl

has_tier :
    (tier : Tier) (rows : List TierLimits) (tl : TierLimits)
    → find (λ x. same_tier x.tier tier) rows ≡ some tl
    → any (λ x. same_tier x.tier tier) rows ≡ true
has_tier tier rows tl found = sym (is_set-find (λ x. same_tier x.tier tier) rows) ∙ ap is_set found

get_limits-ok :
    (now : ℕ) (t : Tables) (sub : Subscription) (tl : TierLimits)
    → t.subscription ≡ some sub
    → is_expired sub.expires_at now ≡ false
    → find (λ x. same_tier x.tier sub.tier) t.tier_limits ≡ some tl
    → (get_limits postgres now t).0 ≡ ok (limits (apply_overrides (to_limits tl) sub))
unfolding get_limits get get_tier_limits
get_limits-ok now t sub tl there live found = rw (there, live, found) refl

-- A change that leaves the id, the tier and the expiry alone.
changed-get_limits :
    (apply : Subscription → Subscription) (now reason by : ℕ) (t : Tables) (sub : Subscription)
    (tl : TierLimits)
    → t.subscription ≡ some sub
    → is_expired sub.expires_at now ≡ false
    → find (λ x. same_tier x.tier sub.tier) t.tier_limits ≡ some tl
    → (apply sub).id ≡ sub.id
    → (apply sub).tier ≡ sub.tier
    → (apply sub).expires_at ≡ sub.expires_at
    → (get_limits postgres now (update_subscription postgres reason by apply t).1).0
      ≡ ok (limits (apply_overrides (to_limits tl) (set_columns (apply sub) by t.now sub)))
changed-get_limits apply now reason by t sub tl there live found id tier expiry =
    let tiered =
      subst (λ x. any (λ y. same_tier y.tier x) t.tier_limits ≡ true) (sym tier)
        (has_tier sub.tier t.tier_limits tl found) in
    ap (λ s. (get_limits postgres now s).0)
      (update_subscription-ok apply reason by t sub there id tiered)
    ∙ get_limits-ok now (written (apply sub) reason by sub t) (set_columns (apply sub) by t.now sub)
        tl refl (subst (λ e. is_expired e now ≡ false) (sym expiry) live)
        (subst (λ x. find (λ y. same_tier y.tier x) t.tier_limits ≡ some tl) (sym tier) found)

-- With a subscription that has not expired, of a tier that has limits: after SetOverrides, GetLimits
-- answers the limits of before with the given overrides in their place.
pub get_limits-set_overrides :
    (o : Overrides) (now reason by : ℕ) (t : Tables) (sub : Subscription) (tl : TierLimits)
    → t.subscription ≡ some sub
    → is_expired sub.expires_at now ≡ false
    → find (λ x. same_tier x.tier sub.tier) t.tier_limits ≡ some tl
    → (get_limits postgres now (set_overrides postgres o reason by t).1).0
      ≡ ok (limits (overridden o (apply_overrides (to_limits tl) sub)))
unfolding set_overrides apply_overrides_to apply_overrides
get_limits-set_overrides o now reason by t sub tl there live found =
    changed-get_limits (λ s. apply_overrides_to s o) now reason by t sub tl there live found refl
      refl refl
    ∙ ap (λ l. ok (limits l)) (apply_overrides-apply_overrides_to (to_limits tl) sub o)

-- With a subscription that has not expired, of a tier that has limits: after ClearOverrides GetLimits
-- answers the limits of the tier.
pub get_limits-clear_overrides :
    (now reason by : ℕ) (t : Tables) (sub : Subscription) (tl : TierLimits)
    → t.subscription ≡ some sub
    → is_expired sub.expires_at now ≡ false
    → find (λ x. same_tier x.tier sub.tier) t.tier_limits ≡ some tl
    → (get_limits postgres now (clear_overrides postgres reason by t).1).0
      ≡ ok (limits (to_limits tl))
unfolding clear_overrides clear_overrides_on apply_overrides
get_limits-clear_overrides now reason by t sub tl there live found =
    changed-get_limits clear_overrides_on now reason by t sub tl there live found refl refl refl
    ∙ ap (λ l. ok (limits l)) (apply_overrides-clear_overrides_on (to_limits tl) sub)
