-- ===== src/Numa/Balanced.antt =====
-- What `migrate_misplaced_page` (arm64_files/migrate.c) leaves behind.
use memory_migration_cs.Base.{
  ℕ, zero, suc, ◌+◌, ◌-◌, ◌==◌, ltb, Bool, true, false, ◌&&◌, not, Option, none, some, List, [],
  ◌∷◌, ◌≡◌, inl, inr, refl, sym, ◌∙◌, subst, if◌then◌else◌, Errno, Bool-cases, arith,
}
use memory_migration_cs.Batch.{Page, is_thp}
use memory_migration_cs.Batch.Driver.{Batch, Verdict, count, error}
use memory_migration_cs.Batch.Counts.{IsMover}
use memory_migration_cs.Batch.Outcome.{migrate_pages-verdict}
use memory_migration_cs.Batch.Rounds.{IsBase, migrate_pages-returns}
use memory_migration_cs.Batch.Single.{SplitsThp, SplitsThp-SplitsToBase, migrate_pages-single}
use memory_migration_cs.Numa.{
  Node, Misplaced, NumaKernel, Balancing, migrate_balanced_pgdat, isolated_page,
  numamigrate_isolate_page, put_back, count_events, unless_bug, after_migration, migrated,
  if_isolated, migrate_misplaced_page,
}

emptied_not : {q : Page} → (q ∷ []) ≡ [] → ⊥
emptied_not h = cc

module _ {W : Type 0} where
  -- What a call leaves behind, given whether it says that the page was migrated.
  abbrev Balanced : Misplaced → Balancing W → Bool × Balancing W → Type 0
  Balanced p s (r, t) =
      (t.puts ≡ s.puts + 1)
      × (r ≡ true → t.isolated ≡ s.isolated + p.page.nr)
      × (r ≡ false → t.isolated ≡ s.isolated)

  abbrev IsBalanced : Misplaced → Balancing W → Option (Bool × Balancing W) → Type 0
  IsBalanced p s none = ⊥
  IsBalanced p s (some r) = Balanced p s r

  IsBalanced-if :
      (b : Bool) (p : Misplaced) (s : Balancing W) (x y : Option (Bool × Balancing W))
      → IsBalanced p s x
      → IsBalanced p s y
      → IsBalanced p s (if b then x else y)
  IsBalanced-if true p s x y h g = h
  IsBalanced-if false p s x y h g = g

  count_events_same :
      (k : NumaKernel W) (n : Node) (p : Misplaced) (moved : ℕ) (s : Balancing W)
      → ((count_events k n p moved s).puts ≡ s.puts)
        × ((count_events k n p moved s).isolated ≡ s.isolated)
  count_events_same k n p zero s = (refl, refl)
  count_events_same k n p (suc moved) s = (refl, refl)

  -- The page was isolated: the state `s` before, `t` with the page counted.
  module _ (k : NumaKernel W) (n : Node) (p : Misplaced) (s t : Balancing W)
      (puts : t.puts ≡ s.puts + 1) (isolated : t.isolated ≡ s.isolated + p.page.nr)
      (b : Batch W) where
    Balanced-moved : b.from ≡ [] → IsBalanced p s (after_migration k n p t b (count 0))
    unfolding after_migration
    Balanced-moved e =
        let (c, d) =
          count_events_same k n p b.counters.nr_succeeded (record t { world = b.world }) in
        subst
          (λ (ps : List Page). IsBalanced p s (
            unless_bug true
              (ps, count_events k n p b.counters.nr_succeeded (record t { world = b.world }))))
          (sym e) (omega (arith, c, puts), λ r. omega (arith, d, isolated), λ r. cc)

    abbrev behind : List Page × Balancing W → Option (Bool × Balancing W)
    behind (left, u) = unless_bug false (left, count_events k n p b.counters.nr_succeeded u)

    abbrev taken_off : Balancing W
    taken_off = record t {
      world = k.putback_lru_page b.world p.page;
      isolated = t.isolated - p.page.nr;
    }

    -- The list with the page alone is emptied by `list_del`.
    put_back_left :
        b.from ≡ p.page ∷ []
        → IsBalanced p s (behind (put_back k p (record t { world = b.world }) b.from))
    put_back_left e =
        let (x, y) = count_events_same k n p b.counters.nr_succeeded taken_off in
        let same : (p.page.pfn == p.page.pfn) ≡ true = ground arith in
        subst
          (λ (ps : List Page).
            IsBalanced p s (behind (put_back k p (record t { world = b.world }) ps)))
          (sym e)
          (subst (λ (c : Bool). IsBalanced p s (behind (if c then [] else p.page ∷ [], taken_off)))
            (sym same) (omega (arith, x, puts), λ r. cc, λ r. omega (arith, y, isolated)))

    Balanced-left :
        (v : Verdict)
        → (v ≡ count 0 → b.from ≡ [])
        → (b.from ≡ [] → v ≡ count 0)
        → b.from ≡ p.page ∷ []
        → IsBalanced p s (after_migration k n p t b v)
    unfolding after_migration
    Balanced-left (count zero) f g e = absurd (emptied_not (sym e ∙ f refl))
    Balanced-left (count (suc c)) f g e = put_back_left e
    Balanced-left (error x) f g e = put_back_left e

  -- The rest of the call, by the verdict on the list of one page.
  module _ (k : NumaKernel W) (n : Node) (p : Misplaced) (plain : IsBase p.page)
      (places : IsMover (k.mover n.nid)) (splits : SplitsThp (k.mover n.nid)) where
    Balanced-migrated :
        (s t : Balancing W)
        → t.puts ≡ s.puts + 1
        → t.isolated ≡ s.isolated + p.page.nr
        → IsBalanced p s (if_isolated k n p (true, t))
    unfolding if_isolated
    Balanced-migrated s t puts isolated =
        let (b, e) =
          migrate_pages-returns (k.mover n.nid) (SplitsThp-SplitsToBase (k.mover n.nid) splits) true
            (p.page ∷ []) t.world in
        let told = migrate_pages-verdict (k.mover n.nid) true places (p.page ∷ []) t.world b e in
        subst (λ (o : Option (Batch W)). IsBalanced p s (migrated k n p t o)) (sym e)
          (elim (migrate_pages-single (k.mover n.nid) splits p.page plain true t.world b e) [
            | inl none_left ↦
                subst (λ (v : Verdict). IsBalanced p s (after_migration k n p t b v))
                  (sym (told.left_zero none_left))
                  (Balanced-moved k n p s t puts isolated b none_left)
            | inr one_left ↦
                Balanced-left k n p s t puts isolated b b.rc told.zero_left told.left_zero one_left
          ])

    Balanced-isolated :
        (s : Balancing W) (r : W × Option Errno)
        → IsBalanced p s (if_isolated k n p (isolated_page p s r))
    unfolding if_isolated
    Balanced-isolated s (w, some e) = (refl, λ r. cc, λ r. refl)
    Balanced-isolated s (w, none) = Balanced-migrated s _ refl refl

    Balanced-if_isolated :
        (s : Balancing W) → IsBalanced p s (if_isolated k n p (numamigrate_isolate_page k n p s))
    unfolding numamigrate_isolate_page if_isolated
    Balanced-if_isolated s = elim (Bool-cases (is_thp p.page.kind && ltb 1 p.total_mapcount)) [
      | inl a ↦ rw a (refl, λ r. cc, λ r. refl)
      | inr a ↦ rw a (elim (Bool-cases (migrate_balanced_pgdat n p.page.nr)) [
        | inl b ↦ rw b (Balanced-isolated s (k.isolate_lru_page s.world p.page))
        | inr b ↦ rw b (elim (Bool-cases n.tiering) [
          | inl c ↦ rw c (refl, λ r. cc, λ r. refl)
          | inr c ↦ rw c (refl, λ r. cc, λ r. refl)
        ])
      ])
    ]

-- `migrate_misplaced_page` on a page that is no THP returns, its BUG_ON is never hit, and the
-- reference of the caller is dropped exactly once. If it says that the page was migrated, the count
-- of isolated pages has gained the page, which the move takes off; otherwise that count is as
-- before. This relies on moves of single pages that place a page as `migrate_pages` expects, and on
-- splits of THPs alone, into their base pages.
pub migrate_misplaced_page-Balanced :
    {W : Type 0} (k : NumaKernel W) (n : Node) (p : Misplaced)
    → IsBase p.page
    → IsMover (k.mover n.nid)
    → SplitsThp (k.mover n.nid)
    → (exec : Bool) (s : Balancing W)
    → (r : Bool) × (t : Balancing W) × (migrate_misplaced_page k n p exec s ≡ some (r, t))
      × (t.puts ≡ s.puts + 1)
      × (r ≡ true → t.isolated ≡ s.isolated + p.page.nr)
      × (r ≡ false → t.isolated ≡ s.isolated)
unfolding migrate_misplaced_page
migrate_misplaced_page-Balanced {W} k n p plain places splits exec s =
    returned (migrate_misplaced_page k n p exec s) refl (
      IsBalanced-if (not (p.mapcount == 1) && p.file_lru && exec) p s _ _ (refl, λ r. cc, λ r. refl)
        (IsBalanced-if (p.file_lru && p.dirty) p s _ _ (refl, λ r. cc, λ r. refl)
          (Balanced-if_isolated k n p plain places splits s)))
  where
    returned :
        (o : Option (Bool × Balancing W))
        → migrate_misplaced_page k n p exec s ≡ o
        → IsBalanced p s o
        → (r : Bool) × (t : Balancing W) × (migrate_misplaced_page k n p exec s ≡ some (r, t))
          × (t.puts ≡ s.puts + 1)
          × (r ≡ true → t.isolated ≡ s.isolated + p.page.nr)
          × (r ≡ false → t.isolated ≡ s.isolated)
    returned none e h = absurd h
    returned (some (r, t)) e h = (r, t, e, h.0, h.1, h.2)
