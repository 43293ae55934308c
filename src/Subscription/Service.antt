-- ===== src/Subscription/Service.antt =====
-- internal/subscription/subscription.go: the service, over its repository.
use e_campus_server.Prelude.{
  ℕ, zero, suc, Bool, true, false, not, List, Result, ok, err, Method, Done, pure, throw, throw_if,
  attempt, ◌>>=◌, ◌>>◌, if◌then◌else◌,
}
use e_campus_server.Subscription.Data.{
  Error, subscription_expired, conflict, invalid_tier, Tier, free, Limits, Overrides, TierLimits,
  Subscription, History, valid_tier, to_limits, apply_overrides, is_expired, apply_overrides_to,
  clear_overrides_on, default_history_limit,
}

-- The port `Repository`, on a store of any kind.
pub record Repository (S : Type 0) : Type 0 where
  pub get : Method S Error Subscription
  pub get_tier_limits : Tier → Method S Error TierLimits
  pub update_tier_limits : TierLimits → Method S Error Done
  pub get_history : ℕ → Method S Error (List History)
  -- With the new version, the subscription as the call leaves it, which it has through a pointer.
  pub update_with_history : Subscription → ℕ → ℕ → ℕ → Method S Error (Subscription × ℕ)

-- What `GetLimits` answers: limits, and an error that may come beside them.
pub data LimitsAnswer : Type 0 where
  limits : Limits → LimitsAnswer
  limits_and_error : Limits → Error → LimitsAnswer

module _ {S : Type 0} (repo : Repository S) where
  abbrev base_limits : ℕ → Subscription → Method S Error LimitsAnswer
  base_limits now sub =
      if is_expired sub.expires_at now
      then (repo.get_tier_limits free >>= λ tl.
          pure (limits_and_error (to_limits tl) subscription_expired))
      else (repo.get_tier_limits sub.tier >>= λ tl.
          pure (limits (apply_overrides (to_limits tl) sub)))

  -- `GetLimits`; `now` stands for the call of `time.Now`.
  unfoldable pub get_limits : ℕ → Method S Error LimitsAnswer
  get_limits now = repo.get >>= base_limits now

  abbrev no_error : (Limits → ℕ) → LimitsAnswer → Method S Error ℕ
  no_error f (limits l) = pure (f l)
  no_error f (limits_and_error l e) = throw e

  unfoldable pub get_file_size_limit : ℕ → Method S Error ℕ
  unfolding get_limits
  get_file_size_limit now = do answer ← get_limits now; no_error (λ l. l.max_file_size_bytes) answer

  unfoldable pub get_storage_limit : ℕ → Method S Error ℕ
  unfolding get_limits
  get_storage_limit now = do answer ← get_limits now; no_error (λ l. l.max_storage_bytes) answer

  -- `UpdateTierLimits`
  unfoldable pub replace_tier_limits : TierLimits → Method S Error Done
  replace_tier_limits tl = do
    throw_if (not (valid_tier tl.tier)) invalid_tier
    repo.update_tier_limits tl

  unfoldable pub history_page : ℕ → Method S Error (List History)
  history_page limit = repo.get_history (default_history_limit limit)

  abbrev pub is_conflict : Error → Bool
  is_conflict conflict = true
  is_conflict _ = false

  -- The end of a round: another one after a conflict.
  abbrev pub finish_round :
      Method S Error Subscription → Result Error (Subscription × ℕ) → Method S Error Subscription
  finish_round again (ok (updated, new_version)) = pure (record updated { version = new_version })
  finish_round again (err e) = if is_conflict e then again else throw e

  -- The loop of `updateSubscription`, on the number of rounds left.
  unfoldable pub update_rounds :
      ℕ → ℕ → ℕ → (Subscription → Subscription) → Method S Error Subscription
  update_rounds zero reason changed_by apply = throw conflict
  update_rounds (suc rounds) reason changed_by apply = do
    sub ← repo.get
    r ← attempt (repo.update_with_history (apply sub) sub.version reason changed_by)
    finish_round (update_rounds rounds reason changed_by apply) r

  -- `updateSubscription`; `maxUpdateRetries` is 3.
  unfoldable pub update_subscription :
      ℕ → ℕ → (Subscription → Subscription) → Method S Error Subscription
  unfolding update_rounds
  update_subscription reason changed_by apply = update_rounds 3 reason changed_by apply

  unfoldable pub update_tier : Tier → ℕ → ℕ → Method S Error Subscription
  unfolding update_subscription
  update_tier tier reason changed_by = do
    throw_if (not (valid_tier tier)) invalid_tier
    update_subscription reason changed_by (λ sub. record sub { tier = tier })

  unfoldable pub set_overrides : Overrides → ℕ → ℕ → Method S Error Subscription
  unfolding update_subscription
  set_overrides overrides reason changed_by =
      update_subscription reason changed_by (λ sub. apply_overrides_to sub overrides)

  unfoldable pub clear_overrides : ℕ → ℕ → Method S Error Subscription
  unfolding update_subscription
  clear_overrides reason changed_by = update_subscription reason changed_by clear_overrides_on
