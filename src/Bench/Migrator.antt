-- ===== src/Bench/Migrator.antt =====
-- `migrator` of arm64_files/mig_bench_e.c: one pass through the buffer, in chunks, by `move_pages`.
use memory_migration_cs.Base.{
  ℕ, zero, suc, ◌+◌, ◌-◌, ◌*◌, ◌≤◌, ◌<◌, ltb, leb, not, inl, inr, min, Bool, true, false, Option,
  none, some, List, [], ◌∷◌, ◌++◌, ◌≡◌, refl, sym, ap, ◌∙◌, if◌then◌else◌, Bool-cases, arith,
}
use memory_migration_cs.Syscall.{Status, on_node}
use memory_migration_cs.Bench.{page_sz, buf_pages}

-- The system call, with so many addresses, and the statuses as they are before it and behind it.
-- `phase_at` is the phase that the migrator reads before it moves the chunk at a page.
pub record Machine (W : Type 0) : Type 0 where
  pub move_pages : W → ℕ → (ℕ → ℕ) → (ℕ → Status) → W × (ℕ → Status)
  pub phase_at : ℕ → ℕ

-- The counters, the array of statuses, which the chunks share, and the addresses that the system
-- call has found in the arrays passed to it.
pub record Migrator (W : Type 0) : Type 0 where
  pub world : W
  pub status : ℕ → Status
  pub attempted : ℕ
  pub succeeded : ℕ
  pub failures : ℕ
  pub asked : List ℕ

-- `status[i] >= 0`.
abbrev pub is_node : Status → Bool
is_node (on_node n) = true
is_node s = false

-- The addresses of `n` pages from page `off` on.
abbrev pub addresses : (buf off n : ℕ) → List ℕ
addresses buf off zero = []
addresses buf off (suc n) = (buf + off * page_sz) ∷ addresses buf (off + 1) n

-- The first `n` entries of the array `pgs` from `i` on, which the system call reads.
abbrev pub entries : (ℕ → ℕ) → (i n : ℕ) → List ℕ
entries pgs i zero = []
entries pgs i (suc n) = pgs i ∷ entries pgs (i + 1) n

-- `pgs[i]` as the migrator fills it in, for the chunk at page `off`.
abbrev pub pgs_of : (buf off : ℕ) → ℕ → ℕ
pgs_of buf off i = buf + (off + i) * page_sz

-- The size of the chunk at page `off`.
abbrev pub chunk_at : (chunk off : ℕ) → ℕ
chunk_at chunk off = if leb (off + chunk) buf_pages then chunk else buf_pages - off

chunk_at-fits :
    (chunk off : ℕ) → off < buf_pages → off + chunk_at chunk off ≡ min (off + chunk) buf_pages
chunk_at-fits chunk off lt = ground arith

addresses-append :
    (buf off m n mid : ℕ)
    → mid ≡ off + m
    → addresses buf off m ++ addresses buf mid n ≡ addresses buf off (m + n)
addresses-append buf off zero n mid e =
    let here : mid ≡ off = omega (arith, e) in
    let all : n ≡ 0 + n = omega arith in
    ap (λ (x : ℕ). addresses buf x n) here ∙ ap (addresses buf off) all
addresses-append buf off (suc m) n mid e =
    let more : suc (m + n) ≡ suc m + n = omega arith in
    ap (λ (l : List ℕ). (buf + off * page_sz) ∷ l)
      (addresses-append buf (off + 1) m n mid (omega (arith, e)))
    ∙ ap (addresses buf off) more

entries-pgs_of :
    (buf off i n at : ℕ) → at ≡ off + i → entries (pgs_of buf off) i n ≡ addresses buf at n
entries-pgs_of buf off i zero at e = refl
entries-pgs_of buf off i (suc n) at e =
    ap (λ (x : ℕ). (buf + x * page_sz) ∷ entries (pgs_of buf off) (i + 1) n) (sym e)
    ∙ ap (λ (l : List ℕ). (buf + at * page_sz) ∷ l)
        (entries-pgs_of buf off (i + 1) n (at + 1) (omega (arith, e)))

module _ {W : Type 0} where
  -- The system call with the array `pgs`, of which it is asked to move the first `n` entries.
  abbrev pub call_move_pages : Machine W → (n : ℕ) → (pgs : ℕ → ℕ) → Migrator W → Migrator W
  call_move_pages m n pgs s =
      let (w, st) = m.move_pages s.world n pgs s.status in
      record s { world = w; status = st; asked = s.asked ++ entries pgs 0 n }

  -- The loop over the statuses, from `i` on with `left` to go.
  unfoldable pub tally : (left i : ℕ) → Migrator W → Migrator W
  tally zero i s = s
  tally (suc left) i s =
      let counted = record s { attempted = s.attempted + 1 } in
      tally left (i + 1) (
        if is_node (s.status i)
        then record counted { succeeded = s.succeeded + 1 }
        else record counted { failures = s.failures + 1 })

  -- A chunk of `n` pages.
  unfoldable pub move_chunk : Machine W → (buf off n : ℕ) → Migrator W → Migrator W
  unfolding tally
  move_chunk m buf off n s =
      let pgs : ℕ → ℕ = pgs_of buf off in tally n 0 (call_move_pages m n pgs s)

  -- The loop, at most `fuel` times; `none` if that does not do.
  unfoldable pub migrate_from :
      Machine W → (buf chunk fuel off : ℕ) → Migrator W → Option (Migrator W)
  unfolding move_chunk
  migrate_from m buf chunk zero off s = none
  migrate_from m buf chunk (suc fuel) off s =
      let rest =
        migrate_from m buf chunk fuel (off + chunk) (move_chunk m buf off (chunk_at chunk off) s) in
      if not (ltb off buf_pages) then some s else if ltb 2 (m.phase_at off) then some s else rest

  -- The pass; `status` is as `malloc` leaves it.
  unfoldable pub migrator : Machine W → (buf chunk : ℕ) → (ℕ → Status) → W → Option (Migrator W)
  unfolding migrate_from
  migrator m buf chunk status w = migrate_from m buf chunk (buf_pages + 1) 0 (record {
    world = w;
    status = status;
    attempted = 0;
    succeeded = 0;
    failures = 0;
    asked = [];
  })

  -- Each page attempted is counted as moved or failed, and has been passed once, in order.
  pub record IsMigrator (buf : ℕ) (s : Migrator W) : Type 0 where
    pub counts : s.attempted ≡ s.succeeded + s.failures
    pub in_buffer : s.attempted ≤ buf_pages
    pub in_order : s.asked ≡ addresses buf 0 s.attempted

  tally-counts :
      (left i : ℕ) (s : Migrator W)
      → s.attempted ≡ s.succeeded + s.failures
      → let t = tally left i s in
        (t.attempted ≡ t.succeeded + t.failures)
        × (t.attempted ≡ s.attempted + left)
        × (t.asked ≡ s.asked)
  unfolding tally
  tally-counts zero i s h = (h, omega arith, refl)
  tally-counts (suc left) i s h = elim (Bool-cases (is_node (s.status i))) [
    | inl e ↦
        let (a, b, c) =
          tally-counts left (i + 1)
            (record s { attempted = s.attempted + 1; succeeded = s.succeeded + 1 })
            (omega (arith, h)) in
        rw (e, tally) (a, omega (arith, b), c)
    | inr e ↦
        let (a, b, c) =
          tally-counts left (i + 1)
            (record s { attempted = s.attempted + 1; failures = s.failures + 1 })
            (omega (arith, h)) in
        rw (e, tally) (a, omega (arith, b), c)
  ]

  IsMigrator-move_chunk :
      (m : Machine W) (buf off n : ℕ) (s : Migrator W)
      → s.attempted ≡ off
      → IsMigrator buf s
      → off + n ≤ buf_pages
      → IsMigrator buf (move_chunk m buf off n s) × ((move_chunk m buf off n s).attempted ≡ off + n)
  unfolding move_chunk
  IsMigrator-move_chunk m buf off n s at h fits =
      let (a, b, c) = tally-counts n 0 (call_move_pages m n (pgs_of buf off) s) h.counts in
      let passed = entries-pgs_of buf off 0 n off (omega arith) in
      let total : s.attempted + n ≡ off + n = omega (arith, at) in
      (
        record {
          counts = a;
          in_buffer = omega (arith, b, at);
          in_order =
              c
              ∙ ap (λ (l : List ℕ). s.asked ++ l) passed
              ∙ ap (λ (l : List ℕ). l ++ addresses buf off n) (h.in_order ∙ ap (addresses buf 0) at)
              ∙ addresses-append buf 0 off n off (omega arith)
              ∙ ap (addresses buf 0) (sym (b ∙ total));
        },
        omega (arith, b, at),
      )

  -- The loop ends, with the invariant, and without an early phase 3 it has reached the end of the
  -- buffer.
  abbrev Ends : Machine W → ℕ → Option (Migrator W) → Type 0
  Ends m buf none = ⊥
  Ends m buf (some s) =
      IsMigrator buf s × (((off : ℕ) → m.phase_at off ≤ 2) → s.attempted ≡ buf_pages)

  Ends-migrate_from :
      (m : Machine W) (buf chunk : ℕ)
      → 1 ≤ chunk
      → (fuel off : ℕ) (s : Migrator W) → buf_pages < off + fuel
      → 1 ≤ fuel
      → s.attempted ≡ min off buf_pages
      → IsMigrator buf s
      → Ends m buf (migrate_from m buf chunk fuel off s)
  unfolding migrate_from
  Ends-migrate_from m buf chunk pos zero off s more some_left at h = absurd (omega arith)
  Ends-migrate_from m buf chunk pos (suc fuel) off s more some_left at h =
      elim (Bool-cases (ltb off buf_pages)) [
        | inr e ↦ rw e (h, λ q. ground (arith, at))
        | inl e ↦ rw e (elim (Bool-cases (ltb 2 (m.phase_at off))) [
          | inl f ↦ rw f (h, λ q. absurd (ground (arith, q off)))
          | inr f ↦
              let here : s.attempted ≡ off = ground (arith, at) in
              let fits = chunk_at-fits chunk off (ground arith) in
              let (g, b) =
                IsMigrator-move_chunk m buf off (chunk_at chunk off) s here h
                  (omega (arith, fits)) in
              rw f (
                Ends-migrate_from m buf chunk pos fuel (off + chunk)
                  (move_chunk m buf off (chunk_at chunk off) s) (omega (arith, more))
                  (ground (arith, more)) (omega (arith, b, here, fits)) g)
        ])
      ]

-- The migrator returns after one pass, if a chunk has a page at least: the loop ends. Then each
-- page attempted is counted either as moved or as failed; those attempted are the first of the
-- buffer, each passed to `move_pages` once and in order, and if the phase never goes beyond 2 they
-- are all of the buffer.
pub migrator-IsMigrator :
    {W : Type 0} (m : Machine W) (buf chunk : ℕ)
    → 1 ≤ chunk
    → (status : ℕ → Status) (w : W)
    → (s : Migrator W) × (migrator m buf chunk status w ≡ some s)
      × IsMigrator buf s
      × (((off : ℕ) → m.phase_at off ≤ 2) → s.attempted ≡ buf_pages)
unfolding migrator
migrator-IsMigrator {W} m buf chunk pos status w = returned (migrator m buf chunk status w) refl (
    Ends-migrate_from m buf chunk pos (buf_pages + 1) 0 _ (omega arith) (omega arith) (omega arith)
      (record { counts = refl; in_buffer = omega arith; in_order = refl }))
  where
    returned :
        (o : Option (Migrator W))
        → migrator m buf chunk status w ≡ o
        → Ends m buf o
        → (s : Migrator W) × (migrator m buf chunk status w ≡ some s)
          × IsMigrator buf s
          × (((off : ℕ) → m.phase_at off ≤ 2) → s.attempted ≡ buf_pages)
    returned none e h = absurd h
    returned (some s) e h = (s, e, h.0, h.1)
