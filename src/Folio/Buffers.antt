-- ===== src/Folio/Buffers.antt =====
-- arm64_files/migrate.c, lines 1012-1191: the migration of a folio with buffer heads, and of a
-- folio with other private data (`filemap_migrate_folio`).
use memory_migration_cs.Base.{
  ℕ, ◌+◌, ◌-◌, Bool, true, false, ◌||◌, Option, none, some, List, [], ◌∷◌, ◌++◌, map, ◌≡◌, refl,
  ◌==◌, ltb, if◌then◌else◌, Mode, async, Rc, success, fail, eagain, is_async, arith, append_assoc,
  append-nil, ◌∙◌, ap, Bool-cases, inl, inr, ◌⊎◌,
}
use memory_migration_cs.Folio.{AddressSpace, Buffer, Migration}
use memory_migration_cs.Folio.Cache.{folio_expected_refs, folio_migrate_mapping}
use memory_migration_cs.Folio.Flags.{Numa, copy_or_flags, migrate_folio}

abbrev pub lock_buffer : Buffer → Buffer
lock_buffer b = record b { busy = true }

abbrev pub unlock_buffer : Buffer → Buffer
unlock_buffer b = record b { busy = false }

-- The loop with `trylock_buffer`: at a busy buffer the locks that were taken are dropped.
unfoldable pub trylock_buffers : (taken rest : List Buffer) → Bool × List Buffer
trylock_buffers taken [] = (true, taken)
trylock_buffers taken (b ∷ bs) =
    let next = trylock_buffers (taken ++ (lock_buffer b ∷ [])) bs in
    if b.busy then (false, map unlock_buffer taken ++ (b ∷ bs)) else next

-- `buffer_migrate_lock_buffers`. `lock_buffer` waits until it has the lock.
unfoldable pub buffer_migrate_lock_buffers : List Buffer → Mode → Bool × List Buffer
unfolding trylock_buffers
buffer_migrate_lock_buffers bs mode =
    if is_async mode then trylock_buffers [] bs else (true, map lock_buffer bs)

-- Whether a buffer is referenced.
abbrev pub any_count : List Buffer → Bool
any_count [] = false
any_count (b ∷ bs) = ltb 0 b.b_count || any_count bs

-- The check from `recheck_buffers` on, which calls `invalidate_bh_lrus` once; whether it is busy.
unfoldable pub recheck_buffers :
    (List Buffer → List Buffer) → Bool → List Buffer → Bool × List Buffer
recheck_buffers invalidate false bs = (false, bs)
recheck_buffers invalidate true bs =
    if any_count bs then (any_count (invalidate bs), invalidate bs) else (false, bs)

-- `folio_attach_private(dst, folio_detach_private(src))`: the data goes over with a reference.
unfoldable pub move_private : Migration → Migration
move_private m =
    if m.src.has_private
    then record m {
      src = record (m.src) { has_private = false; private = none; refcount = m.src.refcount - 1 };
      dst = record (m.dst) {
        has_private = true;
        private = m.src.private;
        refcount = m.dst.refcount + 1;
      };
    }
    else m

abbrev pub set_page : ℕ → Buffer → Buffer
set_page pfn b = record b { b_page = pfn }

-- `set_bh_page(bh, &dst->page, bh_offset(bh))` of all buffers.
abbrev pub set_pages : ℕ → List Buffer → List Buffer
set_pages pfn bs = map (set_page pfn) bs

-- From the label `unlock_buffers` on.
abbrev pub unlock_buffers : Migration → Migration
unlock_buffers m = record m { buffers = map unlock_buffer m.buffers }

abbrev pub after_mapping : Numa → Mode → Rc × Migration → Rc × Migration
after_mapping n mode (fail e, m) = (fail e, unlock_buffers m)
after_mapping n mode (success, m) =
    let moved = move_private m in
    let paged = record moved { buffers = set_pages m.dst.pfn m.buffers } in
    (success, unlock_buffers (copy_or_flags n mode paged))

-- `__buffer_migrate_folio`. A folio without buffers is migrated as any other.
unfoldable pub buffer_migrate :
    (ℕ → ℕ → Bool)
    → Numa
    → (List Buffer → List Buffer)
    → AddressSpace
    → Mode
    → Bool
    → Migration
    → List Buffer
    → Option (Rc × Migration)
unfolding buffer_migrate_lock_buffers recheck_buffers move_private
buffer_migrate freeze n invalidate a mode check_refs m [] = migrate_folio freeze n (some a) mode m
buffer_migrate freeze n invalidate a mode check_refs m (h ∷ hs) =
    if m.src.refcount == folio_expected_refs (some a) m.src
    then (let (locked, bs) = buffer_migrate_lock_buffers (h ∷ hs) mode in
        let (busy, bs') = recheck_buffers invalidate check_refs bs in
        some (
          if locked
          then if busy
            then (fail eagain, unlock_buffers (record m { buffers = bs' }))
            else after_mapping n mode
                (folio_migrate_mapping freeze (some a) 0 (record m { buffers = bs' }))
          else (fail eagain, record m { buffers = bs })))
    else some (fail eagain, m)

-- `buffer_migrate_folio`, and with `check_refs` `buffer_migrate_folio_norefs`.
unfoldable pub buffer_migrate_folio :
    (ℕ → ℕ → Bool)
    → Numa
    → (List Buffer → List Buffer)
    → AddressSpace
    → Mode
    → Bool
    → Migration
    → Option (Rc × Migration)
unfolding buffer_migrate
buffer_migrate_folio freeze n invalidate a mode check_refs m =
    buffer_migrate freeze n invalidate a mode check_refs m m.buffers

abbrev pub after_filemap : Numa → Mode → Rc × Migration → Rc × Migration
after_filemap n mode (fail e, m) = (fail e, m)
after_filemap n mode (success, m) = (success, copy_or_flags n mode (move_private m))

-- `filemap_migrate_folio`.
unfoldable pub filemap_migrate_folio :
    (ℕ → ℕ → Bool) → Numa → Option AddressSpace → Mode → Migration → Rc × Migration
unfolding move_private
filemap_migrate_folio freeze n mapping mode m =
    after_filemap n mode (folio_migrate_mapping freeze mapping 0 m)

-- A buffer that was free when it was locked is as it was when it is unlocked again.
unlock-lock : (b : Buffer) → b.busy ≡ false → unlock_buffer (lock_buffer b) ≡ b
unlock-lock b e = ground arith

map-snoc :
    (f : Buffer → Buffer) (xs : List Buffer) (x : Buffer)
    → map f (xs ++ (x ∷ [])) ≡ map f xs ++ (f x ∷ [])
map-snoc f [] x = refl
map-snoc f (y ∷ ys) x = ap (λ t. f y ∷ t) (map-snoc f ys x)

-- With the buffers in front taken, the loop locks the rest, or unlocks what is taken.
trylock_buffers_lem :
    (taken rest : List Buffer)
    → (trylock_buffers taken rest ≡ (true, taken ++ map lock_buffer rest))
      ⊎ (trylock_buffers taken rest ≡ (false, map unlock_buffer taken ++ rest))
unfolding trylock_buffers
trylock_buffers_lem taken [] = inl (rw append-nil)
trylock_buffers_lem taken (b ∷ bs) = elim (Bool-cases b.busy) [
  | inl e ↦ inr (rw (e, trylock_buffers))
  | inr e ↦ elim (trylock_buffers_lem (taken ++ (lock_buffer b ∷ [])) bs) [
    | inl k ↦ inl (
        free-step e
        ∙ k
        ∙ ap (λ t. (true, t)) (append_assoc taken (lock_buffer b ∷ []) (map lock_buffer bs)))
    | inr k ↦ inr (free-step e ∙ k ∙ ap (λ t. (false, t)) (unlocked e))
  ]
]
  where
    free-step :
        b.busy ≡ false
        → trylock_buffers taken (b ∷ bs) ≡ trylock_buffers (taken ++ (lock_buffer b ∷ [])) bs
    free-step e = ground arith

    unlocked :
        b.busy ≡ false
        → map unlock_buffer (taken ++ (lock_buffer b ∷ [])) ++ bs
          ≡ map unlock_buffer taken ++ (b ∷ bs)
    unlocked e =
        rw (map-snoc unlock_buffer taken (lock_buffer b), append_assoc)
          (ap (λ t. map unlock_buffer taken ++ (t ∷ bs)) (unlock-lock b e))

-- `buffer_migrate_lock_buffers` returns true with every buffer locked, or false with every buffer as
-- it was, the locks that it took on the way dropped; false only in the mode MIGRATE_ASYNC.
pub buffer_migrate_lock_buffers_lem :
    (bs : List Buffer) (mode : Mode)
    → (buffer_migrate_lock_buffers bs mode ≡ (true, map lock_buffer bs))
      ⊎ ((mode ≡ async) × (buffer_migrate_lock_buffers bs mode ≡ (false, bs)))
unfolding buffer_migrate_lock_buffers
buffer_migrate_lock_buffers_lem bs async = elim (trylock_buffers_lem [] bs) [
  | inl e ↦ inl e
  | inr e ↦ inr (refl, e)
]
buffer_migrate_lock_buffers_lem bs mode = inl refl
