-- ===== src/Batch/Outcome.antt =====
-- The return value of `migrate_pages` (arm64_files/migrate.c) against the list that it leaves.
use memory_migration_cs.Base.{
  ℕ, zero, suc, ◌+◌, Bool, true, false, Option, none, some, List, [], ◌∷◌, ◌++◌, ◌≡◌, ◌≢◌, refl,
  subst, ◌<◌, length, length-append, arith, Errno, enomem,
}
use memory_migration_cs.Batch.{Page, Mover, Progress, run_passes}
use memory_migration_cs.Batch.Driver.{
  Batch, Verdict, count, error, finish, finish_enomem, end_round, after_passes, run_rounds,
  begin_subpages, migrate_pages, start, add_retries, empty_is_zero,
}
use memory_migration_cs.Batch.Counts.{IsMover, IsSettled, keeps-run_passes}
use memory_migration_cs.Batch.Loop.{Grown-run_passes}

-- What a return tells its caller: 0 exactly if no page is left, and, if no THP was split, a count
-- that is the number of pages left.
pub record IsTold {W : Type 0} (b : Batch W) : Type 0 where
  pub zero_left : b.rc ≡ count 0 → b.from ≡ []
  pub left_zero : b.from ≡ [] → b.rc ≡ count 0
  pub count_left : (n : ℕ) → b.counters.nr_thp_split ≡ 0 → b.rc ≡ count n → n ≡ length b.from

module _ (n splits : ℕ) where
  -- The same of a list and the value that it is returned with.
  abbrev Tells : List Page → Verdict → Type 0
  Tells ps rc =
      (rc ≡ count 0 → ps ≡ [])
      × (ps ≡ [] → rc ≡ count 0)
      × ((k : ℕ) → splits ≡ 0 → rc ≡ count k → k ≡ length ps)

  Tells-count :
      (ps : List Page)
      → (0 < length ps → 0 < n)
      → (splits ≡ 0 → n ≡ length ps)
      → Tells ps (empty_is_zero ps (count n))
  Tells-count [] h e = (λ z. refl, λ z. refl, λ k z c. ground arith)
  Tells-count (p ∷ ps) h e =
      (λ z. absurd (ground (arith, h (omega arith))), λ z. cc, λ k z c. ground (arith, e z))

  Tells-error : (ps : List Page) (x : Errno) → Tells ps (empty_is_zero ps (error x))
  Tells-error [] x = (λ z. refl, λ z. refl, λ k z c. ground arith)
  Tells-error (p ∷ ps) x = (λ z. cc, λ z. cc, λ k z c. cc)

some_eq : {W : Type 0} {b c : Batch W} → some b ≡ some c → b ≡ c
some_eq h = cc

-- A split that has been queued has been counted.
counted_of_queued : (splits queued : ℕ) → (splits ≡ 0 → queued ≡ 0) → 0 < queued → 0 < splits
counted_of_queued zero queued h k = absurd (omega (arith, h refl))
counted_of_queued (suc n) queued h k = omega arith

module _ {W : Type 0} where
  IsTold-finish :
      (from : List Page) (n : ℕ) (s : Progress W)
      → (0 < length (s.lists.ret ++ from) → 0 < n)
      → (s.counters.nr_thp_split ≡ 0 → n ≡ length (s.lists.ret ++ from))
      → IsTold (finish from (count n) s)
  unfolding finish
  IsTold-finish from n s h e =
      let t = Tells-count n s.counters.nr_thp_split (s.lists.ret ++ from) h e in
      record { zero_left = t.0; left_zero = t.1; count_left = t.2 }

  IsTold-finish_enomem : (rest : List Page) (s : Progress W) → IsTold (finish_enomem rest s)
  unfolding finish_enomem finish
  IsTold-finish_enomem rest s =
      let ps = s.lists.ret ++ (s.lists.split_pages ++ (s.lists.kept ++ rest)) in
      let t = Tells-error 0 s.counters.nr_thp_split ps enomem in
      record { zero_left = t.0; left_zero = t.1; count_left = t.2 }

  -- Once a split THP has been counted as failed, no count that is returned is 0.
  IsTold-end_round :
      (next : Progress W → Option (Batch W)) (ps : List Page) (s : Progress W) (b : Batch W)
      → (0 < length (s.lists.ret ++ s.lists.kept)
          → 0 < s.counters.nr_failed + s.counters.nr_thp_failed)
      → (s.counters.nr_thp_split ≡ 0
          → s.counters.nr_failed + s.counters.nr_thp_failed ≡ length (s.lists.ret ++ s.lists.kept))
      → (ps ≢ [] → next (begin_subpages s) ≡ some b → IsTold b)
      → end_round next ps s ≡ some b
      → IsTold b
  unfolding end_round
  IsTold-end_round next [] s b h e n r =
      subst IsTold (some_eq r) (IsTold-finish s.lists.kept _ s h e)
  IsTold-end_round next (p ∷ ps) s b h e n r = n (λ z. cc) r

  IsTold-after_passes :
      (next : Progress W → Option (Batch W)) (s : Progress W) (stop : Option (List Page))
      (b : Batch W)
      → let t = record s { counters = add_retries s.counters } in
        (stop ≡ none
          → 0 < length (s.lists.ret ++ s.lists.kept)
          → 0 < t.counters.nr_failed + t.counters.nr_thp_failed)
        → (stop ≡ none
            → s.counters.nr_thp_split ≡ 0
            → t.counters.nr_failed + t.counters.nr_thp_failed
              ≡ length (s.lists.ret ++ s.lists.kept))
        → (stop ≡ none → s.lists.split_pages ≢ [] → next (begin_subpages t) ≡ some b → IsTold b)
        → after_passes next (s, stop) ≡ some b
        → IsTold b
  unfolding after_passes
  IsTold-after_passes next s (some rest) b h e n r =
      subst IsTold (some_eq r) (IsTold-finish_enomem rest s)
  IsTold-after_passes next s none b h e n r =
      IsTold-end_round next s.lists.split_pages _ b (h refl) (e refl) (n refl) r

module _ {W : Type 0} (m : Mover W) (nosplit : Bool) where
  -- A round that begins with a counted split.
  IsTold-run_rounds :
      (n : ℕ) (nsc : Bool) (s : Progress W) (b : Batch W)
      → 0 < s.counters.nr_thp_split
      → 0 < s.counters.nr_thp_failed
      → run_rounds m n nosplit nsc s ≡ some b
      → IsTold b
  unfolding run_rounds
  IsTold-run_rounds zero nsc s b h k r = cc
  IsTold-run_rounds (suc n) nsc s b h k r =
      let g = Grown-run_passes m nosplit nsc 10 s in
      let t = run_passes m nosplit nsc 10 s in
      IsTold-after_passes (run_rounds m n nosplit true) t.0 t.1 b (λ z l. omega arith)
        (λ z l. absurd (omega arith))
        (λ z ne q. IsTold-run_rounds n true _ b (omega arith) (omega arith) q) r

  queued-lt : (ps : List Page) → ps ≢ [] → 0 < length ps
  queued-lt [] h = absurd (h refl)
  queued-lt (p ∷ ps) h = omega arith

  -- The value that `migrate_pages` returns is 0 exactly if the list that it leaves is empty; and if
  -- it is a count and no THP was split, it is the number of pages on that list. This holds of any
  -- single moves that leave a page on its list only with -EAGAIN, -ENOSYS or -ENOMEM.
  pub migrate_pages-verdict :
      IsMover m
      → (from : List Page) (w : W) (b : Batch W) → migrate_pages m nosplit from w ≡ some b
      → IsTold b
  unfolding migrate_pages run_rounds
  migrate_pages-verdict ok from w b r =
      IsTold-after_passes (run_rounds m 1 nosplit true) t.0 t.1 b
        (λ z l. omega (arith, settled z, length-append {0} t.0.lists.ret t.0.lists.kept))
        (λ z l. omega (arith, settled z, length-append {0} t.0.lists.ret t.0.lists.kept))
        (λ z ne q.
          IsTold-run_rounds 1 true _ b (split_counted z ne)
            (omega (arith, settled z, split_counted z ne)) q)
        r
    where
      t : Progress W × Option (List Page)
      t = run_passes m nosplit false 10 (start from w)

      settled : t.1 ≡ none → IsSettled t.0.lists t.0.counters
      settled z =
          keeps-run_passes m ok nosplit 10 (start from w) (omega arith) (λ e. absurd (omega arith))
            (λ e. absurd (ground arith)) z

      split_counted : t.1 ≡ none → t.0.lists.split_pages ≢ [] → 0 < t.0.counters.nr_thp_split
      split_counted z ne =
          counted_of_queued _ _ (settled z).counted.queued_split
            (queued-lt t.0.lists.split_pages ne)
