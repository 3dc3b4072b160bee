-- ===== src/Tests/FolioRuns.antt =====
-- Moves of single folios by the functions of arm64_files/migrate.c, lines 488-1678.
use memory_migration_cs.Base.{
  ◌+◌, true, false, none, some, List, [], ◌∷◌, ◌≡◌, ◌≢◌, ◌⊎◌, refl, map, async, sync, Rc, success,
  fail, Errno, eagain, ebusy,
}
use memory_migration_cs.Folio.{Folio, AddressSpace, Migration, Buffer, Vma, pmd}
use memory_migration_cs.Folio.Cache.{
  folio_expected_refs, zone_updates, take_over, folio_migrate_mapping,
  migrate_huge_page_move_mapping,
}
use memory_migration_cs.Folio.Handover.{
  IsHandedOver, StatsMoved, folio_migrate_mapping-fails, folio_migrate_mapping-hands_over,
  migrate_huge_page_move_mapping-hands_over,
}
use memory_migration_cs.Folio.Restore.{
  RestoresMappings, count_migrations, remove_migration_ptes, remove_migration_ptes-restores,
}
use memory_migration_cs.Folio.Rocm.{folio_all_mappings_readonly, rocm_swap_ptes}
use memory_migration_cs.Folio.Rocm.Eligible.{IsCandidate, AllPtesReadonly, eligible-writeback}
use memory_migration_cs.Folio.Rocm.Swap.{
  SwapsMappings, leading_all, rocm_swap_ptes-counts, rocm_swap_ptes_complete,
}
use memory_migration_cs.Folio.Buffers.{
  lock_buffer, buffer_migrate_lock_buffers, buffer_migrate_lock_buffers_lem,
}
use memory_migration_cs.Folio.Move.{fallback_migrate_folio}
use memory_migration_cs.Folio.Move.Refuses.{IsWriter, IsRefused, fallback_migrate_folio-refuses}
use memory_migration_cs.Folio.Isolate.{
  Movable, IsDriver, isolate_movable_page, putback_movable_pages, putback-isolate,
}
use memory_migration_cs.Tests.Samples.{
  blank, file_page, file_space, reader, awaiting, unmapped, mapped, freeze, freeze-IsExact, numa,
  callbacks,
}

-- The state that the move of the mapping leaves.
abbrev handed_over : Migration
handed_over = (folio_migrate_mapping freeze (some file_space) 0 unmapped).1

folio_migrate_mapping-hands_over_example :
    IsHandedOver unmapped handed_over × StatsMoved file_space unmapped handed_over
unfolding folio_migrate_mapping take_over zone_updates folio_expected_refs
folio_migrate_mapping-hands_over_example =
    folio_migrate_mapping-hands_over freeze freeze-IsExact file_space 0 unmapped handed_over refl

handed_over_slot : (handed_over.slot ≡ 9) × (handed_over.dst.refcount ≡ 2)
unfolding folio_migrate_mapping take_over zone_updates folio_expected_refs
handed_over_slot = (refl, refl)

folio_migrate_mapping-fails_example :
    (folio_migrate_mapping freeze (some file_space) 1 unmapped ≡ (fail eagain, unmapped))
    ⊎ ((folio_migrate_mapping freeze (some file_space) 1 unmapped).0 ≡ success)
folio_migrate_mapping-fails_example =
    folio_migrate_mapping-fails freeze (some file_space) 1 unmapped

migrate_huge_page_move_mapping-hands_over_example :
    (migrate_huge_page_move_mapping freeze unmapped ≡ (fail eagain, unmapped))
    ⊎ (let (rc, m') = migrate_huge_page_move_mapping freeze unmapped in
        (rc ≡ success)
        × (m'.src.refcount + 1 ≡ 2)
        × (m'.dst.refcount ≡ 2)
        × (m'.slot ≡ 9)
        × (m'.dst.mapping ≡ some 3)
        × (m'.dst.index ≡ 4))
migrate_huge_page_move_mapping-hands_over_example =
    migrate_huge_page_move_mapping-hands_over freeze freeze-IsExact unmapped

remove_migration_ptes-restores_example :
    let (rmap', f') = remove_migration_ptes file_page (awaiting ∷ reader ∷ []) in
    RestoresMappings file_page (awaiting ∷ reader ∷ []) rmap'
    × (count_migrations rmap' ≡ 0)
    × (f'.refcount ≡ 4)
    × (f'.mapcount ≡ 2)
remove_migration_ptes-restores_example =
    remove_migration_ptes-restores file_page (awaiting ∷ reader ∷ [])

rocm_swap_ptes-counts_example :
    let (r, m') = rocm_swap_ptes mapped in
    (leading_all mapped.src mapped.rmap ≡ 0 → r ≡ none)
    × (leading_all mapped.src mapped.rmap ≢ 0 → r ≡ some 1)
    × (m'.dst.refcount ≡ 2)
    × (m'.dst.mapcount ≡ 1)
    × (m'.src.refcount ≡ 2)
    × (m'.src.mapcount ≡ 0)
rocm_swap_ptes-counts_example = rocm_swap_ptes-counts mapped

rocm_swap_ptes_complete_example :
    SwapsMappings mapped.src blank (reader ∷ []) (rocm_swap_ptes mapped).1.rmap
rocm_swap_ptes_complete_example = rocm_swap_ptes_complete mapped refl

candidate : IsCandidate mapped.src sync
candidate = record {
  full_sync = refl;
  clean = refl;
  not_swapcache = refl;
  not_ksm = refl;
  file_backed = refl;
}

-- The old page is mapped by a PMD too, which is writable and passed over.
abbrev huge_writer : Vma
huge_writer = record reader { entries = pmd true ∷ [] }

eligible-writeback_example :
    let rmap = reader ∷ huge_writer ∷ [] in
    (folio_all_mappings_readonly mapped.src (some file_space) rmap sync ≡ true
      → IsCandidate mapped.src sync × (true ≡ true → AllPtesReadonly mapped.src rmap))
    × (IsCandidate mapped.src sync
        → (true ≡ true → AllPtesReadonly mapped.src rmap)
        → folio_all_mappings_readonly mapped.src (some file_space) rmap sync ≡ true)
    × (folio_all_mappings_readonly mapped.src
          (some file_space)
          (reader ∷ record huge_writer { entries = [] } ∷ [])
          sync
        ≡ folio_all_mappings_readonly mapped.src (some file_space) rmap sync)
eligible-writeback_example =
    eligible-writeback mapped.src file_space (reader ∷ huge_writer ∷ []) sync

is_eligible :
    folio_all_mappings_readonly mapped.src (some file_space) (reader ∷ huge_writer ∷ []) sync ≡ true
unfolding folio_all_mappings_readonly
is_eligible = refl

abbrev buffers : List Buffer
buffers =
    record { busy = false; b_count = 0; b_page = 7 }
    ∷ record { busy = true; b_count = 0; b_page = 7 }
    ∷ []

buffer_migrate_lock_buffers_example :
    (buffer_migrate_lock_buffers buffers async ≡ (true, map lock_buffer buffers))
    ⊎ ((async ≡ async) × (buffer_migrate_lock_buffers buffers async ≡ (false, buffers)))
buffer_migrate_lock_buffers_example = buffer_migrate_lock_buffers_lem buffers async

abbrev dirty : Migration
dirty = record unmapped { src = record file_page { dirty = true; locked = true } }

callbacks-IsWriter : IsWriter callbacks
callbacks-IsWriter = record {
  clears_untouched = λ m. (refl, refl);
  clears_locked = λ m. refl;
  writes_untouched = λ m. (refl, refl);
  activates_locked = λ m e. refl;
}

fallback_migrate_folio-refuses_example :
    (true ≡ true
      → (r : Rc × Migration) × (fallback_migrate_folio freeze numa callbacks file_space sync dirty
          ≡ some r)
        × IsRefused sync dirty r)
    × (true ≡ false
        → false ≡ true
        → false ≡ false
        → (e : Errno) × (fallback_migrate_folio freeze numa callbacks file_space sync dirty
            ≡ some (fail e, dirty))
          × (sync ≡ sync → e ≡ eagain)
          × (sync ≢ sync → e ≡ ebusy))
fallback_migrate_folio-refuses_example =
    fallback_migrate_folio-refuses freeze numa callbacks callbacks-IsWriter file_space sync dirty
      refl

-- The address space has no function of its own.
abbrev plain_space : AddressSpace
plain_space = record file_space { has_migrate_folio = false }

-- A driver that isolates every page, and a page of its own.
abbrev driver : Movable
driver = record {
  page_movable = λ f. f.movable;
  isolate_page = λ f. (true, f);
  putback_page = λ f. f;
  putback_active_hugepage = λ f. f;
  putback_lru_page = λ f. f;
}

driver-IsDriver : IsDriver driver
driver-IsDriver = record {
  refuses = λ f e. refl;
  keeps_movable = λ f. refl;
  keeps_hugetlb = λ f. refl;
  undoes = λ f. refl;
  stays_movable = λ f e. e;
}

abbrev balloon_page : Folio
balloon_page = record blank { movable = true; mapping = some 8 }

putback-isolate_example :
    (isolate_movable_page driver balloon_page ≡ (fail ebusy, balloon_page))
    ⊎ (((isolate_movable_page driver balloon_page).0 ≡ success)
        × (putback_movable_pages driver ((isolate_movable_page driver balloon_page).1 ∷ [])
            ≡ (balloon_page ∷ [], 0)))
putback-isolate_example = putback-isolate driver driver-IsDriver balloon_page refl
