-- ===== src/Batch/Loop.antt =====
-- An invariant rule for the passes of `migrate_pages` (arm64_files/migrate.c), and its uses: the
-- count of migrated pages, and the counters that only grow.
use memory_migration_cs.Base.{
  ℕ, zero, suc, ◌≤◌, ◌==◌, Bool, true, false, ◌&&◌, not, Option, none, some, List, [], ◌∷◌, All,
  Errno, eagain, enosys, enomem, arith, inl, inr, Option-cases, Bool-cases,
}
use memory_migration_cs.Batch.{
  Page, is_thp, Attempt, released, stays, returned, Mover, Counters, Progress, Stepped,
  try_split_thp, split_or, on_error, on_attempt, try_page, run_pass, run_passes, begin_pass,
  after_pass,
}

-- No condition on the pages.
abbrev pub Any : Page → Type 0
Any p = Unit

pub All-Any : (ps : List Page) → All Any ps
All-Any [] = tt
All-Any (p ∷ ps) = (tt, All-Any ps)

-- What holds of the pages that a pass has not reached.
abbrev pub Rest {ℓ} : (Page → Type ℓ) → Option (List Page) → Type ℓ
Rest Q none = Unit
Rest Q (some ps) = All Q ps

module _ {W : Type 0} (m : Mover W) (nosplit nsc : Bool) where
  module _ {ℓ κ} (Q : Page → Type ℓ) (P : Progress W → Type κ)
      (kept : (s : Progress W) → P s → All Q s.lists.kept)
      (begins : (s : Progress W) → P s → P (begin_pass s))
      (step : (force : Bool) (p : Page) (s : Progress W)
        → Q p
        → P s
        → P (try_page m nosplit nsc force p s).0) where
    run_pass-inv :
        (force : Bool) (ps : List Page) (s : Progress W)
        → All Q ps
        → P s
        → P (run_pass m nosplit nsc force ps s).0
    unfolding run_pass
    run_pass-inv force [] s q h = h
    run_pass-inv force (p ∷ ps) s q h = elim (Bool-cases (try_page m nosplit nsc force p s).1) [
      | inl e ↦ rw (e, run_pass) (step force p s q.0 h)
      | inr e ↦ rw (e, run_pass) (run_pass-inv force ps _ q.1 (step force p s q.0 h))
    ]

    after_pass-inv :
        (next : Progress W → Progress W × Option (List Page)) (s : Progress W)
        (stop : Option (List Page))
        → ((t : Progress W) → P t → P (next t).0)
        → P s
        → P (after_pass next (s, stop)).0
    unfolding after_pass
    after_pass-inv next s (some rest) n h = h
    after_pass-inv next s none n h = n s h

    -- What holds before the passes holds after them.
    pub run_passes-inv : (left : ℕ) (s : Progress W) → P s → P (run_passes m nosplit nsc left s).0
    unfolding run_passes
    run_passes-inv zero s h = h
    run_passes-inv (suc left) s h =
        elim (Bool-cases (s.counters.retry == 0 && s.counters.thp_retry == 0)) [
          | inl e ↦ rw (e, run_passes) h
          | inr e ↦
              rw (e, run_passes)
                (after_pass-inv (run_passes m nosplit nsc left) _ _ (λ t k. run_passes-inv left t k)
                  (run_pass-inv _ s.lists.kept (begin_pass s) (kept s h) (begins s h)))
        ]

    -- The pages that a `goto out` has not reached stand on the list of the pass.
    Rest-run_pass :
        (force : Bool) (ps : List Page) (s : Progress W)
        → All Q ps
        → P s
        → Rest Q (run_pass m nosplit nsc force ps s).1
    unfolding run_pass
    Rest-run_pass force [] s q h = tt
    Rest-run_pass force (p ∷ ps) s q h = elim (Bool-cases (try_page m nosplit nsc force p s).1) [
      | inl e ↦ rw (e, run_pass) q.1
      | inr e ↦ rw (e, run_pass) (Rest-run_pass force ps _ q.1 (step force p s q.0 h))
    ]

    Rest-after_pass :
        (next : Progress W → Progress W × Option (List Page)) (s : Progress W)
        (stop : Option (List Page))
        → ((t : Progress W) → P t → Rest Q (next t).1)
        → P s
        → Rest Q stop
        → Rest Q (after_pass next (s, stop)).1
    unfolding after_pass
    Rest-after_pass next s (some rest) n h r = r
    Rest-after_pass next s none n h r = n s h

    pub Rest-run_passes :
        (left : ℕ) (s : Progress W) → P s → Rest Q (run_passes m nosplit nsc left s).1
    unfolding run_passes
    Rest-run_passes zero s h = tt
    Rest-run_passes (suc left) s h =
        elim (Bool-cases (s.counters.retry == 0 && s.counters.thp_retry == 0)) [
          | inl e ↦ rw (e, run_passes) tt
          | inr e ↦
              rw (e, run_passes)
                (Rest-after_pass (run_passes m nosplit nsc left) _ _
                  (λ t k. Rest-run_passes left t k)
                  (run_pass-inv _ s.lists.kept (begin_pass s) (kept s h) (begins s h))
                  (Rest-run_pass _ s.lists.kept (begin_pass s) (kept s h) (begins s h)))
        ]

  -- The failures and splits of THPs only grow.
  abbrev pub Grown : Counters → Counters → Type 0
  Grown c d = (c.nr_thp_failed ≤ d.nr_thp_failed) × (c.nr_thp_split ≤ d.nr_thp_split)

  Grown-split_or :
      (may : Bool) (p : Page) (c : Counters) (s : Progress W) (otherwise : Progress W → Stepped W)
      → Grown c s.counters
      → ((w : W) → Grown c (otherwise (record s { world = w })).0.counters)
      → Grown c (split_or m may p s otherwise).0.counters
  unfolding split_or try_split_thp
  Grown-split_or false p c s otherwise g h = h s.world
  Grown-split_or true p c s otherwise g h = elim (Option-cases (m.split s.world p).1) [
    | inl e ↦ rw (e, split_or, try_split_thp) (h (m.split s.world p).0)
    | inr ((head, tails), e) ↦ rw (e, split_or, try_split_thp) (omega arith)
  ]

  Grown-on_error :
      (moved : Bool) (e : Errno) (p : Page) (c : Counters) (s : Progress W)
      → Grown c s.counters
      → Grown c (on_error m nosplit nsc moved e p s).0.counters
  unfolding on_error
  Grown-on_error moved enosys p c s g =
      Grown-split_or (is_thp p.kind) p c _ _ (ground arith) (λ w. ground arith)
  Grown-on_error moved enomem p c s g =
      Grown-split_or (is_thp p.kind && not nosplit) p c _ _ (ground arith) (λ w. ground arith)
  Grown-on_error moved eagain p c s g = ground arith
  Grown-on_error moved e p c s g = ground arith

  Grown-try_page :
      (force : Bool) (p : Page) (c : Counters) (s : Progress W)
      → Grown c s.counters
      → Grown c (try_page m nosplit nsc force p s).0.counters
  unfolding try_page on_attempt
  Grown-try_page force p c s g = grown-on_attempt _ p s g
    where
      grown-on_attempt :
          (a : Attempt W) (p : Page) (s : Progress W)
          → Grown c s.counters
          → Grown c (on_attempt m nosplit nsc a p s).0.counters
      grown-on_attempt (released w) p s g = g
      grown-on_attempt (stays e w) p s g = Grown-on_error false e p c (record s { world = w }) g
      grown-on_attempt (returned e w) p s g = Grown-on_error true e p c (record s { world = w }) g

  pub Grown-run_passes :
      (left : ℕ) (s : Progress W) → Grown s.counters (run_passes m nosplit nsc left s).0.counters
  Grown-run_passes left s =
      run_passes-inv Any (λ t. Grown s.counters t.counters) (λ t h. All-Any t.lists.kept) (λ t h. h)
        (λ force p t q h. Grown-try_page force p s.counters t h) left s (omega arith)
