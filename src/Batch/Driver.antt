-- ===== src/Batch/Driver.antt =====
-- arm64_files/migrate.c, lines 2373-2563: `migrate_pages` around the passes of its loop, from the
-- list that it is called with to its return value.
use memory_migration_cs.Base.{
  ℕ, zero, suc, Bool, true, false, Option, none, some, List, [], Errno, enomem, ◌+◌, ◌∷◌, ◌++◌,
}
use memory_migration_cs.Batch.{Page, Mover, Counters, Progress, run_passes}

-- A return value of `migrate_pages`: the number of pages, THPs and hugetlb pages that were not
-- migrated, or an error.
pub data Verdict : Type 0 where
  count : ℕ → Verdict
  error : Errno → Verdict

-- What `migrate_pages` leaves: the list `from`, the return value, the pages that were migrated, the
-- counters (`*ret_succeeded` is `nr_succeeded`) and the world.
pub record Batch (W : Type 0) : Type 0 where
  pub from : List Page
  pub rc : Verdict
  pub gone : List Page
  pub counters : Counters
  pub world : W

-- `list_splice(&ret_pages, from)`, and `rc = 0` if the list is empty.
abbrev pub empty_is_zero : List Page → Verdict → Verdict
empty_is_zero [] rc = count 0
empty_is_zero (p ∷ ps) rc = rc

unfoldable pub finish : {W : Type 0} → List Page → Verdict → Progress W → Batch W
finish from rc s = record {
  from = s.lists.ret ++ from;
  rc = empty_is_zero (s.lists.ret ++ from) rc;
  gone = s.lists.gone;
  counters = s.counters;
  world = s.world;
}

-- `case -ENOMEM` after the counting: the split pages go to the front of `from`.
unfoldable pub finish_enomem : {W : Type 0} → List Page → Progress W → Batch W
unfolding finish
finish_enomem rest s =
    let c = s.counters in
    finish (s.lists.split_pages ++ (s.lists.kept ++ rest)) (error enomem)
      (record s { counters = record c { nr_thp_failed = c.nr_thp_failed + c.thp_retry } })

-- After the passes: what is still to be retried has failed.
abbrev pub add_retries : Counters → Counters
add_retries c = record c {
  nr_failed = c.nr_failed + c.retry;
  nr_thp_failed = c.nr_thp_failed + c.thp_retry;
  nr_failed_pages = c.nr_failed_pages + c.nr_retry_pages;
}

-- `goto thp_subpage_migration`: what is left of `from` goes to the front of `ret_pages`, and the
-- split pages take its place.
abbrev pub begin_subpages : {W : Type 0} → Progress W → Progress W
begin_subpages s = record s {
  lists = record (s.lists) {
    kept = s.lists.split_pages;
    ret = s.lists.kept ++ s.lists.ret;
    split_pages = [];
  };
  counters = record (s.counters) { retry = 1 };
}

-- The end of a round that no `goto out` has left: the return value, or `goto
-- thp_subpage_migration` if pages were split.
unfoldable pub end_round :
    {W : Type 0} → (Progress W → Option (Batch W)) → List Page → Progress W → Option (Batch W)
end_round next [] s =
    some (finish s.lists.kept (count (s.counters.nr_failed + s.counters.nr_thp_failed)) s)
end_round next (p ∷ ps) s = next (begin_subpages s)

unfoldable pub after_passes :
    {W : Type 0}
    → (Progress W → Option (Batch W))
    → Progress W × Option (List Page)
    → Option (Batch W)
after_passes next (s, some rest) = some (finish_enomem rest s)
after_passes next (s, none) =
    end_round next s.lists.split_pages (record s { counters = add_retries s.counters })

-- The rounds from `thp_subpage_migration` on, at most `rounds` of them; `none` if they do not do.
unfoldable pub run_rounds :
    {W : Type 0}
    → Mover W
    → (rounds : ℕ) → (nosplit no_subpage_counting : Bool) → Progress W
    → Option (Batch W)
run_rounds m zero nosplit nsc s = none
run_rounds m (suc n) nosplit nsc s =
    after_passes (run_rounds m n nosplit true) (run_passes m nosplit nsc 10 s)

abbrev pub start : {W : Type 0} → List Page → W → Progress W
start from w = record {
  world = w;
  lists = record { kept = from; ret = []; split_pages = []; gone = [] };
  counters = record {
    retry = 1;
    thp_retry = 1;
    nr_failed = 0;
    nr_failed_pages = 0;
    nr_retry_pages = 0;
    nr_succeeded = 0;
    nr_thp_succeeded = 0;
    nr_thp_failed = 0;
    nr_thp_split = 0;
  };
}

-- `migrate_pages`, in at most two rounds. `nosplit` is `reason == MR_NUMA_MISPLACED`.
unfoldable pub migrate_pages : {W : Type 0} → Mover W → Bool → List Page → W → Option (Batch W)
migrate_pages m nosplit from w = run_rounds m 2 nosplit false (start from w)
