-- ===== src/Folio/Move/Leaves.antt =====
-- What `move_to_new_folio` of arm64_files/migrate.c leaves of a folio without a function of its own.
use memory_migration_cs.Base.{true, false, Option, none, some, ◌≡◌, Mode}
use memory_migration_cs.Folio.{AddressSpace, Migration}
use memory_migration_cs.Folio.Flags.{IsCarried, copies}

-- The address space has no migration function of its own.
abbrev pub HasNoFunction : Option AddressSpace → Type 0
HasNoFunction none = Unit
HasNoFunction (some a) = a.has_migrate_folio ≡ false

-- The old folio's marks and its place in the mapping, which the migration functions leave alone.
abbrev SameMarks : Migration → Migration → Type 0
SameMarks m m' =
    (m'.src.anon ≡ m.src.anon) × (m'.src.movable ≡ m.src.movable) × (m'.src.mapping ≡ m.src.mapping)

-- What has become of the folio: it has not moved and nothing has changed, or the new one has taken
-- its place and the old one has left its mapping, if it is not anonymous.
pub record IsMoved (mode : Mode) (m m' : Migration) : Type 0 where
  pub carried : IsCarried m.src m'.dst
  pub copied : copies mode ≡ true → m'.dst.bytes ≡ m.src.bytes
  pub mapped : m'.dst.mapping ≡ m.src.mapping
  pub file_left : m.src.anon ≡ false → m'.src.mapping ≡ none
  pub anon_kept : m.src.anon ≡ true → m'.src.mapping ≡ m.src.mapping
