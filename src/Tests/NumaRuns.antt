-- ===== src/Tests/NumaRuns.antt =====
-- A misplaced page, by arm64_files/migrate.c, lines 3035-3175.
use memory_migration_cs.Base.{
  ℕ, ◌+◌, ◌==◌, ltb, Bool, ◌&&◌, not, true, false, none, some, [], ◌≡◌, refl,
}
use memory_migration_cs.Batch.{Mover}
use memory_migration_cs.Batch.Counts.{IsMover}
use memory_migration_cs.Batch.Single.{SplitsThp}
use memory_migration_cs.Numa.{
  Node, Misplaced, NumaKernel, Balancing, balanced_below, migrate_balanced_pgdat,
  migrate_misplaced_page,
}
use memory_migration_cs.Numa.Balanced.{migrate_misplaced_page-Balanced}
use memory_migration_cs.Tests.BatchRuns.{page, mover, mover-IsMover}

-- Three zones, of which the second is managed and has 100 pages to spare.
abbrev node : Node
node = record {
  nid = 1;
  nr_zones = 3;
  node_zones = λ z. record { managed = z == 1; watermark_ok = λ nr. ltb nr 100 };
  tiering = true;
}

balanced_run : (migrate_balanced_pgdat node 1 && not (migrate_balanced_pgdat node 200)) ≡ true
unfolding migrate_balanced_pgdat balanced_below
balanced_run = refl

abbrev whole : Mover ℕ
whole = record mover { split = λ w p. (w, none) }

whole-SplitsThp : SplitsThp whole
whole-SplitsThp v p head tails h = absurd (cc)

whole-IsMover : IsMover whole
whole-IsMover = record { places = mover-IsMover.places; places_huge = mover-IsMover.places_huge }

abbrev kernel : NumaKernel ℕ
kernel = record {
  isolate_lru_page = λ w p. (w, none);
  putback_lru_page = λ w p. w;
  mover = λ target. whole;
  is_toptier = λ n. true;
}

-- Page 3 is busy.
abbrev misplaced : Misplaced
misplaced = record {
  page = page 3;
  nid = 0;
  mapcount = 1;
  total_mapcount = 1;
  file_lru = false;
  dirty = false;
}

abbrev idle : Balancing ℕ
idle = record { world = 0; isolated = 7; puts = 0; woken = []; numa_migrated = 0; promoted = 0 }

migrate_misplaced_page-Balanced_example :
    (r : Bool) × (t : Balancing ℕ) × (migrate_misplaced_page kernel node misplaced false idle
      ≡ some (r, t))
    × (t.puts ≡ 0 + 1)
    × (r ≡ true → t.isolated ≡ 7 + 1)
    × (r ≡ false → t.isolated ≡ 7)
migrate_misplaced_page-Balanced_example =
    migrate_misplaced_page-Balanced kernel node misplaced refl whole-IsMover whole-SplitsThp false
      idle
