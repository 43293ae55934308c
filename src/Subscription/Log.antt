-- ===== src/Subscription/Log.antt =====
-- The history of internal/subscription under any sequence of the transactions that write.
use e_campus_server.Prelude.{
  ℕ, ◌+◌, ◌≡◌, refl, inl, inr, Bool-cases, true, false, Option, none, some, List, [], ◌∷◌, arith,
  any, length, Keeps,
}
use e_campus_server.Subscription.Data.{Subscription, History, TierLimits, free}
use e_campus_server.Subscription.Postgres.{
  Tables, update_with_history, update_tier_limits, swap, at_version, same_tier,
}

-- What a history row says of a subscription.
abbrev pub Mirrors : Subscription → History → Type 0
Mirrors sub h =
    (h.tier ≡ sub.tier)
    × (h.max_colleges_override ≡ sub.max_colleges_override)
    × (h.max_departments_override ≡ sub.max_departments_override)
    × (h.max_programs_override ≡ sub.max_programs_override)
    × (h.max_students_override ≡ sub.max_students_override)
    × (h.max_applications_override ≡ sub.max_applications_override)
    × (h.max_staff_override ≡ sub.max_staff_override)
    × (h.max_storage_override ≡ sub.max_storage_override)
    × (h.max_file_size_override ≡ sub.max_file_size_override)
    × (h.expires_at ≡ sub.expires_at)

abbrev pub NewestMirrors : Subscription → List History → Type 0
NewestMirrors sub [] = true ≡ false
NewestMirrors sub (h ∷ rows) = Mirrors sub h

-- Every version but the first has its row, and the newest is what the subscription says.
abbrev pub LoggedRow : Option Subscription → List History → Type 0
LoggedRow none rows = Unit
LoggedRow (some sub) rows = (sub.version + 1 ≡ length rows) × NewestMirrors sub rows

unfoldable pub Logged : Tables → Type 0
Logged t = LoggedRow t.subscription t.history

-- A transaction that writes, with its arguments, and the clock before it.
pub data Statement : Type 0 where
  swaps : Subscription → ℕ → ℕ → ℕ → Statement
  sets_tier : TierLimits → Statement
  clock : ℕ → Statement

unfoldable pub execute : Statement → Tables → Tables
execute (swaps sub expected reason by) t = (update_with_history sub expected reason by t).1
execute (sets_tier tl) t = (update_tier_limits tl t).1
execute (clock now) t = record t { now = now }

unfoldable pub execute_all : List Statement → Tables → Tables
execute_all [] t = t
execute_all (s ∷ rest) t = execute_all rest (execute s t)

-- As the migrations leave it.
abbrev pub installed : ℕ → List TierLimits → Tables
installed id tiers = record {
  subscription = some (record {
    id = id;
    tier = free;
    max_colleges_override = none;
    max_departments_override = none;
    max_programs_override = none;
    max_students_override = none;
    max_applications_override = none;
    max_staff_override = none;
    max_storage_override = none;
    max_file_size_override = none;
    expires_at = none;
    updated_by = none;
    version = 0;
    updated_at = 0;
  });
  tier_limits = tiers;
  history =
      record {
        tier = free;
        max_colleges_override = none;
        max_departments_override = none;
        max_programs_override = none;
        max_students_override = none;
        max_applications_override = none;
        max_staff_override = none;
        max_storage_override = none;
        max_file_size_override = none;
        expires_at = none;
        changed_by = none;
        changed_at = 0;
        change_reason = 0;
      }
      ∷ [];
  now = 0;
}

update_with_history-Logged :
    (sub : Subscription) (expected reason by : ℕ)
    → Keeps Logged (update_with_history sub expected reason by)
unfolding Keeps Logged update_with_history
update_with_history-Logged sub expected reason by t logged = go t.subscription logged refl
  where
    go :
        (o : Option Subscription)
        → LoggedRow o t.history
        → t.subscription ≡ o
        → Logged (swap sub expected reason by t o).1
    go none h e = logged
    go (some r) (count, newest) e = elim (Bool-cases (at_version sub expected r)) [
      | inr stale ↦ rw stale logged
      | inl current ↦ elim (Bool-cases (any (λ tl. same_tier tl.tier sub.tier) t.tier_limits)) [
        | inr untiered ↦ rw (current, untiered) logged
        | inl tiered ↦
            rw (current, tiered)
              (omega (arith, count), (refl, refl, refl, refl, refl, refl, refl, refl, refl, refl))
      ]
    ]

update_tier_limits-Logged : (tl : TierLimits) → Keeps Logged (update_tier_limits tl)
unfolding Keeps Logged update_tier_limits
update_tier_limits-Logged tl t logged =
    elim (Bool-cases (any (λ r. same_tier r.tier tl.tier) t.tier_limits)) [
      | inl there ↦ rw there logged
      | inr missing ↦ rw missing logged
    ]

execute_all-Keeps : (ss : List Statement) (t : Tables) → Logged t → Logged (execute_all ss t)
unfolding execute_all execute Keeps Logged
execute_all-Keeps [] t h = h
execute_all-Keeps (swaps sub expected reason by ∷ ss) t h =
    execute_all-Keeps ss _ (update_with_history-Logged sub expected reason by t h)
execute_all-Keeps (sets_tier tl ∷ ss) t h =
    execute_all-Keeps ss _ (update_tier_limits-Logged tl t h)
execute_all-Keeps (clock now ∷ ss) t h = execute_all-Keeps ss _ h

-- Whatever writing transactions ran since the installation, in any order and with any arguments: the
-- subscription's version and one more is the number of history rows, and the newest row has its tier,
-- overrides and expiry.
pub execute_all-LoggedRow :
    (ss : List Statement) (id : ℕ) (tiers : List TierLimits)
    → let t = execute_all ss (installed id tiers) in LoggedRow t.subscription t.history
unfolding Logged
execute_all-LoggedRow ss id tiers =
    execute_all-Keeps ss (installed id tiers)
      (refl, (refl, refl, refl, refl, refl, refl, refl, refl, refl, refl))
