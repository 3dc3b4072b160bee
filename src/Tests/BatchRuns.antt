-- ===== src/Tests/BatchRuns.antt =====
-- A list of pages with a THP, which `migrate_pages` of arm64_files/migrate.c splits and moves.
use memory_migration_cs.Base.{
  ℕ, ◌+◌, ◌==◌, Bool, true, false, Option, none, some, List, [], ◌∷◌, ◌≡◌, refl, if◌then◌else◌,
  sum_by, All, ◌++◌, eagain, ebusy, enomem, arith,
}
use memory_migration_cs.Batch.{
  PageKind, base, thp, hugetlb, Page, Attempt, released, stays, returned, Mover, run_passes,
  run_pass, after_pass, try_page, on_attempt, on_error, split_or, try_split_thp, place_kept,
  place_ret, place_gone, place_split,
}
use memory_migration_cs.Batch.Driver.{
  Batch, count, migrate_pages, finish, run_rounds, end_round, after_passes,
}
use memory_migration_cs.Batch.Counts.{IsMover, IsPlaced}
use memory_migration_cs.Batch.Conserve.{IsShared, migrate_pages-accounted}
use memory_migration_cs.Batch.Outcome.{IsTold, migrate_pages-verdict}
use memory_migration_cs.Batch.Rounds.{IsBase, SplitsToBase, migrate_pages-returns}

abbrev pub page : ℕ → Page
page n = record { pfn = n; kind = base; nr = 1 }

-- The world counts the attempts. Frame 2 is always to be retried, frame 3 is busy, and a THP cannot
-- be allocated as a whole.
abbrev attempt : ℕ → PageKind → ℕ → Attempt ℕ
attempt w thp n = stays enomem (w + 1)
attempt w kind n =
    if n == 2
    then stays eagain (w + 1)
    else if n == 3
    then returned ebusy (w + 1)
    else released (w + 1)

-- A THP of two pages can be split.
abbrev halves : ℕ → Bool → Option (Page × List Page)
halves n true = some (page n, page (n + 1) ∷ [])
halves n false = none

abbrev pub mover : Mover ℕ
mover = record {
  unmap_and_move = λ w p force. attempt w p.kind p.pfn;
  unmap_and_move_huge_page = λ w p force. released (w + 1);
  split = λ w p. (w, halves p.pfn (p.nr == 2));
}

abbrev pages : List Page
pages = page 1 ∷ record { pfn = 4; kind = thp; nr = 2 } ∷ page 3 ∷ page 2 ∷ []

pub mover-IsMover : IsMover mover
mover-IsMover = record {
  places = λ w p force. placed w p.kind p.pfn;
  places_huge = λ w p force. tt;
}
  where
    placed : (w : ℕ) (kind : PageKind) (n : ℕ) → IsPlaced (attempt w kind n)
    placed w thp n = tt
    placed w base n = ground arith
    placed w hugetlb n = ground arith

pub mover-SplitsToBase : SplitsToBase mover
mover-SplitsToBase v p head tails h = halved p.pfn (p.nr == 2) h
  where
    halved :
        (n : ℕ) (b : Bool) → halves n b ≡ some (head, tails) → All IsBase (tails ++ (head ∷ []))
    halved n true e =
        let tail : tails ≡ page (n + 1) ∷ [] = cc in
        let first : head ≡ page n = cc in rw (tail, first) (refl, (refl, tt))
    halved n false e = cc

mover-IsShared : IsShared mover (λ p. p.nr)
mover-IsShared v p head tails h = halved p.pfn (p.nr == 2) refl h
  where
    halved :
        (n : ℕ) (b : Bool)
        → (p.nr == 2) ≡ b
        → halves n b ≡ some (head, tails)
        → p.nr ≡ head.nr + sum_by (λ q. q.nr) tails
    halved n true two e =
        let tail : tails ≡ page (n + 1) ∷ [] = cc in
        let first : head ≡ page n = cc in
        let both : p.nr ≡ 2 = ground arith in rw (tail, first, both) refl
    halved n false two e = cc

migrate_pages-returns_example : (b : Batch ℕ) × (migrate_pages mover false pages 0 ≡ some b)
migrate_pages-returns_example = migrate_pages-returns mover mover-SplitsToBase false pages 0

abbrev moved_batch : Batch ℕ
moved_batch = record {
  from = page 2 ∷ page 3 ∷ [];
  rc = count 3;
  gone = page 1 ∷ page 5 ∷ page 4 ∷ [];
  counters = record {
    retry = 0;
    thp_retry = 0;
    nr_failed = 2;
    nr_failed_pages = 2;
    nr_retry_pages = 0;
    nr_succeeded = 3;
    nr_thp_succeeded = 0;
    nr_thp_failed = 1;
    nr_thp_split = 1;
  };
  world = 15;
}

migrate_pages-verdict_example : IsTold moved_batch
unfolding migrate_pages finish run_rounds end_round after_passes run_passes run_pass after_pass
    try_page on_attempt on_error split_or try_split_thp place_kept place_ret place_gone place_split
migrate_pages-verdict_example =
    migrate_pages-verdict mover false mover-IsMover pages 0 moved_batch refl

migrate_pages-accounted_example :
    sum_by (λ p. p.nr) moved_batch.from + sum_by (λ p. p.nr) moved_batch.gone
    ≡ sum_by (λ p. p.nr) pages
unfolding migrate_pages finish run_rounds end_round after_passes run_passes run_pass after_pass
    try_page on_attempt on_error split_or try_split_thp place_kept place_ret place_gone place_split
migrate_pages-accounted_example =
    migrate_pages-accounted mover (λ p. p.nr) mover-IsShared false pages 0 moved_batch refl
