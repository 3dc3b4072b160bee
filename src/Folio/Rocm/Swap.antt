-- ===== src/Folio/Rocm/Swap.antt =====
-- What the PTE swap of the ROCM path (arm64_files/migrate.c) leaves and returns.
use memory_migration_cs.Base.{
  ℕ, suc, ◌+◌, ◌-◌, Bool, true, false, ◌&&◌, none, some, List, [], ◌∷◌, ◌≡◌, ◌≢◌, refl, arith,
  if◌then◌else◌, Bool-cases, inl, inr,
}
use memory_migration_cs.Folio.{Folio, Entry, present, migration, device, pmd, Vma, Migration}
use memory_migration_cs.Folio.Rocm.{maps, SwapContext, rocm_swap_one_pte, rocm_walk, rocm_swap_ptes}

-- The entries that map the folio and stand in front of the first PMD, and whether there is none.
abbrev pub leading : Folio → List Entry → ℕ
leading f [] = 0
leading f (pmd x ∷ es) = 0
leading f (present p b ∷ es) = (let n = leading f es in if maps f p then suc n else n)
leading f (e ∷ es) = leading f es

abbrev pub has_no_pmd : List Entry → Bool
has_no_pmd [] = true
has_no_pmd (pmd x ∷ es) = false
has_no_pmd (e ∷ es) = has_no_pmd es

-- The same over the mappings in the order of the walk.
abbrev pub leading_all : Folio → List Vma → ℕ
leading_all f [] = 0
leading_all f (v ∷ vs) =
    (let rest = leading_all f vs in
      leading f v.entries + (if has_no_pmd v.entries then rest else 0))

abbrev pub has_no_pmd_all : List Vma → Bool
has_no_pmd_all [] = true
has_no_pmd_all (v ∷ vs) = has_no_pmd v.entries && has_no_pmd_all vs

-- The context after `n` more swaps.
abbrev Counts : SwapContext → ℕ → SwapContext → Type 0
Counts c n d = (d.n_swapped ≡ c.n_swapped + n) × (d.n_to_put ≡ c.n_to_put + n)

module _ (src dst : Folio) where
  Counts-rocm_swap_one_pte :
      (v : Vma) (es : List Entry) (c : SwapContext)
      → let w = rocm_swap_one_pte src dst v es c in
        Counts c (leading src es) w.context × (w.going ≡ has_no_pmd es)
  unfolding rocm_swap_one_pte
  Counts-rocm_swap_one_pte v [] c = ((omega arith, omega arith), refl)
  Counts-rocm_swap_one_pte v (pmd x ∷ es) c = ((omega arith, omega arith), refl)
  Counts-rocm_swap_one_pte v (present p b ∷ es) c =
      let counted : SwapContext = record {
        n_swapped = c.n_swapped + 1;
        n_to_put = c.n_to_put + 1;
      } in
      ground (arith, Counts-rocm_swap_one_pte v es counted, Counts-rocm_swap_one_pte v es c)
  Counts-rocm_swap_one_pte v (migration i a b ∷ es) c = Counts-rocm_swap_one_pte v es c
  Counts-rocm_swap_one_pte v (device p w b ∷ es) c = Counts-rocm_swap_one_pte v es c

  Counts-rocm_walk :
      (vs : List Vma) (c : SwapContext)
      → Counts c (leading_all src vs) (rocm_walk src dst vs c).context
  unfolding rocm_walk
  Counts-rocm_walk [] c = (omega arith, omega arith)
  Counts-rocm_walk (v ∷ vs) c = ground (
    arith,
    Counts-rocm_swap_one_pte v v.entries c,
    Counts-rocm_walk vs (rocm_swap_one_pte src dst v v.entries c).context,
  )

  -- An entry after the swap against the entry before: it maps the same page of the new folio, with
  -- the mapping's own write access, and keeps the soft-dirty and accessed bits.
  abbrev pub Swaps : Vma → Entry → Entry → Type 0
  Swaps v (present p b) (present q new) =
      (maps src p ≡ true
        → (q ≡ dst.pfn + (p - src.pfn))
          × (new.write ≡ v.page_prot.write)
          × (b.soft_dirty ≡ true → new.soft_dirty ≡ true)
          × (new.young ≡ true → b.young ≡ true)
          × (v.page_prot.young ≡ true → b.young ≡ true → new.young ≡ true))
      × (maps src p ≡ false → (q ≡ p) × (new ≡ b))
  Swaps v e e' = e' ≡ e

  abbrev pub SwapsEntries : Vma → List Entry → List Entry → Type 0
  SwapsEntries v [] [] = Unit
  SwapsEntries v (e ∷ es) (e' ∷ es') = Swaps v e e' × SwapsEntries v es es'
  SwapsEntries v es es' = ⊥

  abbrev pub SwapsMappings : List Vma → List Vma → Type 0
  SwapsMappings [] [] = Unit
  SwapsMappings (v ∷ vs) (v' ∷ vs') = SwapsEntries v v.entries v'.entries × SwapsMappings vs vs'
  SwapsMappings vs vs' = ⊥

  swaps-entries :
      (v : Vma) (es : List Entry) (c : SwapContext)
      → has_no_pmd es ≡ true
      → SwapsEntries v es (rocm_swap_one_pte src dst v es c).left
  unfolding rocm_swap_one_pte
  swaps-entries v [] c h = tt
  swaps-entries v (pmd x ∷ es) c h = absurd (ground arith)
  swaps-entries v (present p b ∷ es) c h =
      let counted : SwapContext = record {
        n_swapped = c.n_swapped + 1;
        n_to_put = c.n_to_put + 1;
      } in
      elim (Bool-cases (maps src p)) [
        | inl e ↦ rw (e, rocm_swap_one_pte) (ground arith, swaps-entries v es counted h)
        | inr e ↦ rw (e, rocm_swap_one_pte) (ground arith, swaps-entries v es c h)
      ]
  swaps-entries v (migration i a b ∷ es) c h = (refl, swaps-entries v es c h)
  swaps-entries v (device p w b ∷ es) c h = (refl, swaps-entries v es c h)

  swaps-mappings :
      (vs : List Vma) (c : SwapContext)
      → has_no_pmd_all vs ≡ true
      → SwapsMappings vs (rocm_walk src dst vs c).left
  unfolding rocm_walk
  swaps-mappings [] c h = tt
  swaps-mappings (v ∷ vs) c h =
      let one = rocm_swap_one_pte src dst v v.entries c in
      let goes : one.going ≡ true = ground (arith, Counts-rocm_swap_one_pte v v.entries c) in
      rw (goes, rocm_walk)
        (swaps-entries v v.entries c (ground arith), swaps-mappings vs one.context (ground arith))

-- What `rocm_swap_ptes` returns and counts. With `n` entries of the folio in front of the first PMD
-- of the walk, it returns -1 if `n` is 0 and `n` otherwise, whether or not a PMD has ended the walk;
-- the references and mappings of the new folio grow by `n`, and those of the old one shrink by `n`.
pub rocm_swap_ptes-counts :
    (m : Migration)
    → let n = leading_all m.src m.rmap in
      let (r, m') = rocm_swap_ptes m in
      (n ≡ 0 → r ≡ none)
      × (n ≢ 0 → r ≡ some n)
      × (m'.dst.refcount ≡ m.dst.refcount + n)
      × (m'.dst.mapcount ≡ m.dst.mapcount + n)
      × (m'.src.refcount ≡ m.src.refcount - n)
      × (m'.src.mapcount ≡ m.src.mapcount - n)
unfolding rocm_swap_ptes
rocm_swap_ptes-counts m =
    ground (arith, Counts-rocm_walk m.src m.dst m.rmap (record { n_swapped = 0; n_to_put = 0 }))

-- If no mapping holds the folio by a PMD, the swap reaches every entry: each that mapped a page of
-- the old folio maps the same page of the new one, with the mapping's own write access and with the
-- soft-dirty and accessed bits kept, and every other entry is unchanged.
pub rocm_swap_ptes_complete :
    (m : Migration)
    → has_no_pmd_all m.rmap ≡ true
    → SwapsMappings m.src m.dst m.rmap (rocm_swap_ptes m).1.rmap
unfolding rocm_swap_ptes
rocm_swap_ptes_complete m h =
    swaps-mappings m.src m.dst m.rmap (record { n_swapped = 0; n_to_put = 0 }) h
