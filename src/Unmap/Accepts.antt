-- ===== src/Unmap/Accepts.antt =====
-- What the ROCM path of `__unmap_and_move` (arm64_files/migrate.c, lines 1830-1960) accepts.
use memory_migration_cs.Base.{
  ℕ, Bool, Option, none, some, ◌≡◌, ◌≢◌, inl, inr, refl, ◌∙◌, ap, success, arith,
}
use memory_migration_cs.Folio.{AddressSpace, Migration}
use memory_migration_cs.Folio.Cache.{folio_migrate_mapping}
use memory_migration_cs.Folio.Handover.{folio_migrate_mapping-fails}
use memory_migration_cs.Folio.Flags.{folio_migrate_flags, folio_copy}
use memory_migration_cs.Folio.Rocm.{rocm_swap_ptes}
use memory_migration_cs.Unmap.{
  Kernel, Run, out, commit, out_unlock, out_unlock_both, rocm_path, rocm_copied, rocm_moved,
  add_lru,
}

-- The fields that the end of a call leaves alone.
end_keeps :
    (k : Kernel) (s : Run)
    → let r = out_unlock_both k s in
      (r.rc ≡ s.rc)
      × (r.mig.slot ≡ s.mig.slot)
      × (r.mig.src.mapping ≡ s.mig.src.mapping)
      × (r.mig.dst.mapping ≡ s.mig.dst.mapping)
      × (r.mig.dst.bytes ≡ s.mig.dst.bytes)
unfolding out_unlock_both out_unlock out commit
end_keeps k s = ground arith

-- The mapping's move never touches the old folio's own pointer.
mapping_kept :
    (freeze : ℕ → ℕ → Bool) (a : Option AddressSpace) (m : Migration)
    → ((folio_migrate_mapping freeze a 0 m).1.src.mapping ≡ m.src.mapping)
      × ((folio_migrate_mapping freeze a 0 m).1.dst.bytes ≡ m.dst.bytes)
unfolding folio_migrate_mapping
mapping_kept freeze none m = ground arith
mapping_kept freeze (some a) m = ground arith

swap_keeps :
    (m : Migration)
    → let m' = (rocm_swap_ptes m).1 in
      (m'.src.mapping ≡ m.src.mapping)
      × (m'.slot ≡ m.slot)
      × (m'.dst.mapping ≡ m.dst.mapping)
      × (m'.dst.bytes ≡ m.dst.bytes)
unfolding rocm_swap_ptes
swap_keeps m = (refl, refl, refl, refl)

rocm_path-swapped :
    (k : Kernel) (s : Run) (n : ℕ)
    → (rocm_swap_ptes (rocm_copied k s).mig).0 ≡ some n
    → rocm_path k s
      ≡ out_unlock_both k
          (add_lru k (rocm_moved k (rocm_swap_ptes (rocm_copied k s).mig).1 (rocm_copied k s)))
unfolding rocm_path
rocm_path-swapped k s n e = rw (e, rocm_path)

-- Once the ROCM path has swapped an entry it reports success, with the old page's content in the
-- new one, and the old folio still points to its mapping. It does so also when the page cache's
-- slot could not be moved: then the slot and the new folio's mapping are those from before.
pub rocm_path-accepts :
    (k : Kernel) (s : Run) (n : ℕ)
    → (rocm_swap_ptes (rocm_copied k s).mig).0 ≡ some n
    → let r = rocm_path k s in
      let swapped = (rocm_swap_ptes (rocm_copied k s).mig).1 in
      (r.rc ≡ success)
      × (r.mig.dst.bytes ≡ s.mig.src.bytes)
      × (r.mig.src.mapping ≡ s.mig.src.mapping)
      × ((folio_migrate_mapping k.freeze k.space 0 swapped).0 ≢ success
          → (r.mig.slot ≡ s.mig.slot) × (r.mig.dst.mapping ≡ s.mig.dst.mapping))
unfolding folio_migrate_flags folio_copy
rocm_path-accepts k s n e =
    let swapped = (rocm_swap_ptes (rocm_copied k s).mig).1 in
    let moved = rocm_moved k swapped (rocm_copied k s) in
    let ends = end_keeps k (add_lru k moved) in
    let keeps = swap_keeps (rocm_copied k s).mig in
    let kept = mapping_kept k.freeze k.space swapped in
    rw (rocm_path-swapped k s n e) (
      ends.0,
      ends.4 ∙ kept.1 ∙ keeps.3,
      ends.2 ∙ kept.0 ∙ keeps.0,
      λ ne. elim (folio_migrate_mapping-fails k.freeze k.space 0 swapped) [
        | inl f ↦ (
          ends.1 ∙ ap (λ r. r.1.slot) f ∙ keeps.1,
          ends.3 ∙ ap (λ r. r.1.dst.mapping) f ∙ keeps.2,
        )
        | inr ok ↦ absurd (ne ok)
      ],
    )
