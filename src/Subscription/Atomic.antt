-- ===== src/Subscription/Atomic.antt =====
-- Updates of internal/subscription/subscription.go among others: before each statement of a request the
-- next of a list of foreign transactions runs.
use e_campus_server.Prelude.{
  ℕ, zero, suc, ◌+◌, ◌≡◌, refl, sym, ap, subst, inl, inr, Bool-cases, Option, none, some, List, [],
  ◌∷◌, arith, any, All, Result, ok, err, Method, attempt, ◌>>=◌,
}
use e_campus_server.Subscription.Data.{Error, Subscription}
use e_campus_server.Subscription.Postgres.{
  Tables, get, get_tier_limits, update_tier_limits, get_history, update_with_history, swap, written,
  at_version, same_tier, found, signed,
}
use e_campus_server.Subscription.Service.{
  Repository, update_rounds, update_subscription, finish_round,
}

pub record World : Type 0 where
  pub tables : Tables
  pub others : List (Tables → Tables)

abbrev pub after : List (Tables → Tables) → Tables → World
after [] t = record { tables = t; others = [] }
after (f ∷ fs) t = record { tables = f t; others = fs }

-- The world once the next foreign transaction has run.
abbrev pub disturb : World → World
disturb w = after w.others w.tables

abbrev pub interleave : {A : Type 0} → Method Tables Error A → Method World Error A
interleave m w =
    let w' = disturb w in let (r, t) = m w'.tables in (r, record { tables = t; others = w'.others })

abbrev pub postgres : Repository Tables
postgres = record {
  get = get;
  get_tier_limits = get_tier_limits;
  update_tier_limits = update_tier_limits;
  get_history = get_history;
  update_with_history = update_with_history;
}

abbrev pub shared : Repository World
shared = record {
  get = interleave get;
  get_tier_limits = λ tier. interleave (get_tier_limits tier);
  update_tier_limits = λ tl. interleave (update_tier_limits tl);
  get_history = λ limit. interleave (get_history limit);
  update_with_history = λ sub v reason by. interleave (update_with_history sub v reason by);
}

-- The tables after the first so many foreign transactions, and nothing else.
unfoldable pub advance : ℕ → World → Tables
advance zero w = w.tables
advance (suc k) w = advance k (disturb w)

-- A transaction that changes the subscription gives it another version.
abbrev pub BumpsVersion : (Tables → Tables) → Type 0
BumpsVersion f =
    (t : Tables) (r r' : Subscription)
    → t.subscription ≡ some r
    → (f t).subscription ≡ some r'
    → r'.version ≡ r.version
    → r' ≡ r

-- An update that succeeded was one step: at some moment a subscription was there, and the tables are
-- the ones of that moment with the change made to it and recorded.
abbrev pub OneStep :
    (Subscription → Subscription) → ℕ → ℕ → World → Result Error Subscription × World → Type 0
OneStep apply reason by w (err e, w') = Unit
OneStep apply reason by w (ok sub, w') =
    (k : ℕ) × (r : Subscription) × ((advance k w).subscription ≡ some r)
    × (w'.tables ≡ written (apply r) reason by r (advance k w))
    × (sub ≡ record (signed (apply r) by) { version = r.version + 1 })

disturb-Bumps : (w : World) → All BumpsVersion w.others → All BumpsVersion (disturb w).others
disturb-Bumps w bumps = go w.others bumps
  where
    go :
        (fs : List (Tables → Tables))
        → All BumpsVersion fs
        → All BumpsVersion (after fs w.tables).others
    go [] h = tt
    go (f ∷ fs) h = h.1

-- A row that still has its version is the row itself.
unchanged :
    (w : World) (r r' : Subscription)
    → All BumpsVersion w.others
    → w.tables.subscription ≡ some r
    → (disturb w).tables.subscription ≡ some r'
    → r'.version ≡ r.version
    → r' ≡ r
unchanged w r r' bumps before now same = go w.others bumps now
  where
    go :
        (fs : List (Tables → Tables))
        → All BumpsVersion fs
        → (after fs w.tables).tables.subscription ≡ some r'
        → r' ≡ r
    go [] h e = ground (arith, e, before)
    go (f ∷ fs) h e = h.0 w.tables r r' before e same

advanced :
    (w : World) {o : Option Subscription}
    → (disturb w).tables.subscription ≡ o
    → (advance 1 w).subscription ≡ o
unfolding advance
advanced w h = h

module _ (apply : Subscription → Subscription) (reason by : ℕ) where
  -- A later moment is one of the whole run.
  later :
      (w : World) (p : Result Error Subscription × World)
      → OneStep apply reason by (disturb w) p
      → OneStep apply reason by w p
  unfolding advance
  later w (err e, w') h = tt
  later w (ok sub, w') (k, r, at, wrote, same) = (suc k, r, at, wrote, same)

  -- The write of a round, on the row that it meets.
  finish-OneStep :
      (w : World) (sub : Subscription) (again : Method World Error Subscription)
      → All BumpsVersion w.others
      → w.tables.subscription ≡ some sub
      → OneStep apply reason by (disturb w) (again (disturb w))
      → (o : Option Subscription) → (disturb w).tables.subscription ≡ o
      → OneStep apply reason by w (
          (attempt (λ v.
                let (r, t) = swap (apply sub) sub.version reason by v.tables o in
                (r, record { tables = t; others = v.others }))
              >>= finish_round shared again)
            (disturb w))
  unfolding advance
  finish-OneStep w sub again bumps before rest none now = later w (again (disturb w)) rest
  finish-OneStep w sub again bumps before rest (some r) now =
      elim (Bool-cases (at_version (apply sub) sub.version r)) [
        | inr stale ↦ rw stale (later w (again (disturb w)) rest)
        | inl current ↦
            elim (Bool-cases
              (any (λ tl. same_tier tl.tier (apply sub).tier) (disturb w).tables.tier_limits)) [
                | inr untiered ↦ rw (current, untiered) tt
                | inl tiered ↦
                    let is_sub : r ≡ sub =
                      unchanged w sub r bumps before now (ground (arith, current)) in
                    rw (current, tiered)
                      (
                        1,
                        r,
                        advanced w now,
                        ap (λ x. written (apply x) reason by r (disturb w).tables) (sym is_sub),
                        ap (λ x. record (signed (apply x) by) { version = r.version + 1 })
                            (sym is_sub),
                      )
              ]
      ]

  read-OneStep :
      (w : World) (again : Method World Error Subscription)
      → All BumpsVersion w.others
      → ((sub : Subscription)
          → w.tables.subscription ≡ some sub
          → OneStep apply reason by w (
              (attempt (shared.update_with_history (apply sub) sub.version reason by)
                  >>= finish_round shared again)
                w))
      → (o : Option Subscription) → w.tables.subscription ≡ o
      → OneStep apply reason by w (
          ((λ v. (found o, v)) >>= λ sub.
          attempt (shared.update_with_history (apply sub) sub.version reason by)
          >>= finish_round shared again)
            w)
  read-OneStep w again bumps goes none now = tt
  read-OneStep w again bumps goes (some sub) now = goes sub now

  pub update_rounds-OneStep :
      (rounds : ℕ) (w : World)
      → All BumpsVersion w.others
      → OneStep apply reason by w (update_rounds shared rounds reason by apply w)
  unfolding update_rounds get update_with_history
  update_rounds-OneStep zero w bumps = tt
  update_rounds-OneStep (suc rounds) w bumps =
      let w1 : World = disturb w in
      let again : Method World Error Subscription = update_rounds shared rounds reason by apply in
      let bumps1 = disturb-Bumps w bumps in
      later w _ (
        read-OneStep w1 again bumps1
          (λ sub at.
            finish-OneStep w1 sub again bumps1 at
              (update_rounds-OneStep rounds (disturb w1) (disturb-Bumps w1 bumps1))
              (disturb w1).tables.subscription refl)
          w1.tables.subscription refl)

swap-Bumps :
    (sub : Subscription) (expected reason by : ℕ) (t : Tables) (r r' : Subscription)
    → (swap sub expected reason by t (some r)).1.subscription ≡ some r'
    → t.subscription ≡ some r
    → r'.version ≡ r.version
    → r' ≡ r
swap-Bumps sub expected reason by t r r' now there same =
    elim (Bool-cases (at_version sub expected r)) [
      | inr stale ↦ let e = rw stale at now in ground (arith, e, there)
      | inl current ↦ elim (Bool-cases (any (λ tl. same_tier tl.tier sub.tier) t.tier_limits)) [
        | inr untiered ↦ let e = rw (current, untiered) at now in ground (arith, e, there)
        | inl tiered ↦ let e = rw (current, tiered) at now in ground (arith, e, same)
      ]
    ]

-- The code's own writes are such transactions.
pub update_with_history-Bumps :
    (sub : Subscription) (expected reason by : ℕ)
    → BumpsVersion (λ t. (update_with_history sub expected reason by t).1)
unfolding update_with_history
update_with_history-Bumps sub expected reason by t r r' there now same =
    swap-Bumps sub expected reason by t r r'
      (subst (λ o. (swap sub expected reason by t o).1.subscription ≡ some r') there now) there same

-- Whatever transactions run between the statements, if each that changes the subscription gives it
-- another version: an update that succeeds was one atomic step on the subscription of some moment, its
-- change recorded in the history with it, and it answers the changed subscription with the caller as
-- its last editor and the new version.
pub update_subscription-OneStep :
    (apply : Subscription → Subscription) (reason by : ℕ) (w : World)
    → All BumpsVersion w.others
    → OneStep apply reason by w (update_subscription shared reason by apply w)
unfolding update_subscription
update_subscription-OneStep apply reason by w bumps =
    update_rounds-OneStep apply reason by 3 w bumps
