-- ===== src/Folio/Rocm/Eligible.antt =====
-- When arm64_files/migrate.c takes the ROCM path.
use memory_migration_cs.Base.{
  Bool, ◌&&◌, if◌then◌else◌, ap, ◌∙◌, inl, inr, Bool-cases, true, false, some, List, [], ◌∷◌, ◌≡◌,
  refl, All, arith, Mode, sync,
}
use memory_migration_cs.Folio.{Folio, AddressSpace, Entry, present, migration, device, pmd, Vma}
use memory_migration_cs.Folio.Rocm.{
  maps, found_writable, walk_writable, folio_all_mappings_readonly,
}

-- An entry that is not a PTE through which a thread can write to the folio. Of a PMD it says nothing.
abbrev pub IsReadonlyPte : Folio → Entry → Type 0
IsReadonlyPte f (present p b) = maps f p ≡ true → b.write ≡ false
IsReadonlyPte f e = Unit

abbrev pub AllPtesReadonly : Folio → List Vma → Type 0
AllPtesReadonly f rmap = All (λ v. All (IsReadonlyPte f) v.entries) rmap

entries-IsReadonlyPte :
    (f : Folio) (es : List Entry) → found_writable f es ≡ false → All (IsReadonlyPte f) es
unfolding found_writable
entries-IsReadonlyPte f [] h = tt
entries-IsReadonlyPte f (present p b ∷ es) h =
    (λ k. ground arith, entries-IsReadonlyPte f es (ground arith))
entries-IsReadonlyPte f (e ∷ es) h = (tt, entries-IsReadonlyPte f es h)

not_found_writable :
    (f : Folio) (es : List Entry) → All (IsReadonlyPte f) es → found_writable f es ≡ false
unfolding found_writable
not_found_writable f [] h = refl
not_found_writable f (present p b ∷ es) h = ground (arith, not_found_writable f es h.1, h.0)
not_found_writable f (e ∷ es) h = not_found_writable f es h.1

walk_readonly : (f : Folio) (vs : List Vma) → walk_writable f vs ≡ false → AllPtesReadonly f vs
unfolding walk_writable
walk_readonly f [] h = tt
walk_readonly f (v ∷ vs) h =
    (entries-IsReadonlyPte f v.entries (ground arith), walk_readonly f vs (ground arith))

not_walk_writable : (f : Folio) (vs : List Vma) → AllPtesReadonly f vs → walk_writable f vs ≡ false
unfolding walk_writable
not_walk_writable f [] h = refl
not_walk_writable f (v ∷ vs) h =
    ground (arith, not_found_writable f v.entries h.0, not_walk_writable f vs h.1)

-- The conditions that do not look at the page tables.
pub record IsCandidate (f : Folio) (mode : Mode) : Type 0 where
  pub full_sync : mode ≡ sync
  pub clean : f.dirty ≡ false
  pub not_swapcache : f.swapcache ≡ false
  pub not_ksm : f.ksm ≡ false
  pub file_backed : f.anon ≡ false

-- The mappings without their PMDs.
abbrev pub without_pmds : List Entry → List Entry
without_pmds [] = []
without_pmds (pmd x ∷ es) = without_pmds es
without_pmds (e ∷ es) = e ∷ without_pmds es

abbrev pub without_pmds_all : List Vma → List Vma
without_pmds_all [] = []
without_pmds_all (v ∷ vs) = record v { entries = without_pmds v.entries } ∷ without_pmds_all vs

found_writable-without_pmds :
    (f : Folio) (es : List Entry) → found_writable f (without_pmds es) ≡ found_writable f es
unfolding found_writable
found_writable-without_pmds f [] = refl
found_writable-without_pmds f (pmd x ∷ es) = found_writable-without_pmds f es
found_writable-without_pmds f (present p b ∷ es) =
    ap (λ (r : Bool). if maps f p && b.write then true else r) (found_writable-without_pmds f es)
found_writable-without_pmds f (migration i a b ∷ es) = found_writable-without_pmds f es
found_writable-without_pmds f (device p w b ∷ es) = found_writable-without_pmds f es

walk_writable-without_pmds :
    (f : Folio) (vs : List Vma) → walk_writable f (without_pmds_all vs) ≡ walk_writable f vs
unfolding walk_writable
walk_writable-without_pmds f [] = refl
walk_writable-without_pmds f (v ∷ vs) =
    ap (λ (r : Bool). if r then true else walk_writable f (without_pmds_all vs))
      (found_writable-without_pmds f v.entries)
    ∙ ap (λ (r : Bool). if found_writable f v.entries then true else r)
        (walk_writable-without_pmds f vs)

-- A folio with a mapping is eligible exactly if the mode is MIGRATE_SYNC, it is a clean file page
-- outside the swap cache and KSM, and, if the mapping can write back, no PTE that maps one of its
-- pages is writable. PMDs are passed over: without them the answer is the same, also if a PMD that
-- maps the folio is writable.
pub eligible-writeback :
    (f : Folio) (a : AddressSpace) (rmap : List Vma) (mode : Mode)
    → (folio_all_mappings_readonly f (some a) rmap mode ≡ true
        → IsCandidate f mode × (a.can_writeback ≡ true → AllPtesReadonly f rmap))
      × (IsCandidate f mode
          → (a.can_writeback ≡ true → AllPtesReadonly f rmap)
          → folio_all_mappings_readonly f (some a) rmap mode ≡ true)
      × (folio_all_mappings_readonly f (some a) (without_pmds_all rmap) mode
          ≡ folio_all_mappings_readonly f (some a) rmap mode)
unfolding folio_all_mappings_readonly
eligible-writeback f a rmap mode = (
  λ e. (ground arith, λ h. walk_readonly f rmap (ground arith)),
  λ c r. elim (Bool-cases a.can_writeback) [
    | inl h ↦ ground (arith, not_walk_writable f rmap (r h))
    | inr h ↦ ground arith
  ],
  ground (arith, walk_writable-without_pmds f rmap),
)
