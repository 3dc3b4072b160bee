-- ===== src/Folio/Restore.antt =====
-- arm64_files/migrate.c, lines 488-600: `remove_migration_pte` and `remove_migration_ptes`. The
-- entries of a folio that is mapped by a PMD are left out, and so is the bit of a huge entry.
use memory_migration_cs.Base.{
  ℕ, suc, ◌+◌, Bool, true, false, ◌&&◌, ◌||◌, not, List, [], ◌∷◌, map, ◌≡◌, refl, if◌then◌else◌,
  arith, ◌⊎◌, ◌≢◌,
}
use memory_migration_cs.Folio.{
  Folio, PteBits, Access, writable, readable, Entry, present, migration, device, Vma,
}

abbrev is_writable : Access → Bool
is_writable writable = true
is_writable _ = false

abbrev is_readable : Access → Bool
is_readable readable = true
is_readable _ = false

-- The entry that `remove_migration_pte` installs: `mk_pte` of the mapping's protection, then the bits
-- of the migration entry.
unfoldable pub restored_pte : Vma → Folio → Access → PteBits → PteBits
restored_pte vma f access old = record {
  write = vma.page_prot.write || (is_writable access && vma.may_write);
  young = vma.page_prot.young && old.young;
  dirty = vma.page_prot.dirty || (f.dirty && old.dirty);
  soft_dirty = vma.page_prot.soft_dirty || old.soft_dirty;
  uffd_wp = vma.page_prot.uffd_wp || (not (is_writable access) && old.uffd_wp);
  exclusive = f.anon && not (is_readable access);
}

-- For device memory, a swap entry that keeps the soft-dirty and uffd-wp bits.
unfoldable pub device_pte : PteBits → PteBits → PteBits
device_pte new old = record new {
  young = false;
  dirty = false;
  soft_dirty = old.soft_dirty;
  uffd_wp = old.uffd_wp;
}

-- One round of the walk: a migration entry is replaced, other entries are not visited.
unfoldable pub restore_entry : Vma → Folio → Entry → Entry
unfolding restored_pte device_pte
restore_entry vma f (migration idx access old) =
    let new = restored_pte vma f access old in
    if f.device_private
    then device (f.pfn + idx) new.write (device_pte new old)
    else present (f.pfn + idx) new
restore_entry vma f e = e

-- The migration entries of a mapping and of all mappings: for each, the walk takes a reference of
-- the folio and adds a mapping to it.
abbrev pub count_migration : List Entry → ℕ
count_migration [] = 0
count_migration (migration i a b ∷ es) = suc (count_migration es)
count_migration (e ∷ es) = count_migration es

abbrev pub count_migrations : List Vma → ℕ
count_migrations [] = 0
count_migrations (v ∷ vs) = count_migration v.entries + count_migrations vs

-- `remove_migration_pte`, over the entries of one mapping.
unfoldable pub remove_migration_pte : Folio → Vma → Vma
unfolding restore_entry
remove_migration_pte f vma = record vma { entries = map (restore_entry vma f) vma.entries }

-- `remove_migration_ptes(src, f)`: the mappings, and the folio with its new references.
unfoldable pub remove_migration_ptes : Folio → List Vma → List Vma × Folio
unfolding remove_migration_pte
remove_migration_ptes f rmap = (
  map (remove_migration_pte f) rmap,
  record f {
    refcount = f.refcount + count_migrations rmap;
    mapcount = f.mapcount + count_migrations rmap;
  },
)

-- An entry after the walk against the entry before: no migration entry is left, write access is
-- that of the migration entry where the mapping still allows it, and the accessed, soft-dirty and
-- uffd-wp bits are those that the migration entry has kept.
abbrev pub Restores : Vma → Folio → Entry → Entry → Type 0
Restores v f (migration i a old) (present p new) =
    (p ≡ f.pfn + i)
    × (new.write ≡ true → (v.page_prot.write ≡ true) ⊎ ((a ≡ writable) × (v.may_write ≡ true)))
    × (a ≡ writable → v.may_write ≡ true → new.write ≡ true)
    × (new.young ≡ true → old.young ≡ true)
    × (old.soft_dirty ≡ true → new.soft_dirty ≡ true)
    × (a ≢ writable → old.uffd_wp ≡ true → new.uffd_wp ≡ true)
    × (f.dirty ≡ true → old.dirty ≡ true → new.dirty ≡ true)
    × (f.anon ≡ true → a ≢ readable → new.exclusive ≡ true)
Restores v f (migration i a old) (device p w new) =
    (f.device_private ≡ true)
    × (p ≡ f.pfn + i)
    × (w ≡ true → (v.page_prot.write ≡ true) ⊎ ((a ≡ writable) × (v.may_write ≡ true)))
    × (new.soft_dirty ≡ old.soft_dirty)
    × (new.uffd_wp ≡ old.uffd_wp)
Restores v f (migration i a old) e = ⊥
Restores v f e e' = e' ≡ e

restore_entry-Restores : (v : Vma) (f : Folio) (e : Entry) → Restores v f e (restore_entry v f e)
unfolding restore_entry
restore_entry-Restores v f (migration i a old) = restored-choice f.device_private refl
  where
    restored-choice :
        (d : Bool)
        → f.device_private ≡ d
        → Restores v f (migration i a old) (restore_entry v f (migration i a old))
    restored-choice true e = rw (e, restore_entry) (ground arith)
    restored-choice false e = rw (e, restore_entry) (ground arith)
restore_entry-Restores v f e = refl

-- The same of the entries of a mapping, and of all mappings.
abbrev pub RestoresEntries : Vma → Folio → List Entry → List Entry → Type 0
RestoresEntries v f [] [] = Unit
RestoresEntries v f (e ∷ es) (e' ∷ es') = Restores v f e e' × RestoresEntries v f es es'
RestoresEntries v f es es' = ⊥

abbrev pub RestoresMappings : Folio → List Vma → List Vma → Type 0
RestoresMappings f [] [] = Unit
RestoresMappings f (v ∷ vs) (v' ∷ vs') =
    RestoresEntries v f v.entries v'.entries × RestoresMappings f vs vs'
RestoresMappings f vs vs' = ⊥

restores_entries :
    (v : Vma) (f : Folio) (es : List Entry) → RestoresEntries v f es (map (restore_entry v f) es)
restores_entries v f [] = tt
restores_entries v f (e ∷ es) = (restore_entry-Restores v f e, restores_entries v f es)

restores_mappings :
    (f : Folio) (vs : List Vma) → RestoresMappings f vs (map (remove_migration_pte f) vs)
unfolding remove_migration_pte
restores_mappings f [] = tt
restores_mappings f (v ∷ vs) = (restores_entries v f v.entries, restores_mappings f vs)

restored_is_not_migration :
    (v : Vma) (f : Folio) (e : Entry) (es : List Entry)
    → count_migration es ≡ 0
    → count_migration (restore_entry v f e ∷ es) ≡ 0
unfolding restore_entry
restored_is_not_migration v f (migration i a old) es h = ground arith
restored_is_not_migration v f e es h = h

none_left_in_entries :
    (v : Vma) (f : Folio) (es : List Entry) → count_migration (map (restore_entry v f) es) ≡ 0
none_left_in_entries v f [] = refl
none_left_in_entries v f (e ∷ es) =
    restored_is_not_migration v f e (map (restore_entry v f) es) (none_left_in_entries v f es)

none_left : (f : Folio) (vs : List Vma) → count_migrations (map (remove_migration_pte f) vs) ≡ 0
unfolding remove_migration_pte
none_left f [] = refl
none_left f (v ∷ vs) = omega (arith, none_left_in_entries v f v.entries, none_left f vs)

-- After `remove_migration_ptes` no migration entry is left; each has been replaced by an entry for
-- its page of the folio, with the access rights and bits that the migration entry kept and the
-- mapping still allows, and all other entries are as before; the folio has one reference and one
-- mapping more for each entry replaced.
pub remove_migration_ptes-restores :
    (f : Folio) (rmap : List Vma)
    → let (rmap', f') = remove_migration_ptes f rmap in
      RestoresMappings f rmap rmap'
      × (count_migrations rmap' ≡ 0)
      × (f'.refcount ≡ f.refcount + count_migrations rmap)
      × (f'.mapcount ≡ f.mapcount + count_migrations rmap)
unfolding remove_migration_ptes
remove_migration_ptes-restores f rmap = (restores_mappings f rmap, none_left f rmap, refl, refl)
