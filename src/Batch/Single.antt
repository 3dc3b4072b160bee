-- ===== src/Batch/Single.antt =====
-- A call of `migrate_pages` (arm64_files/migrate.c) with a list of one page that is no THP.
use memory_migration_cs.Base.{
  ℕ, ◌+◌, ◌≤◌, max, Bool, true, false, Option, none, some, List, [], ◌∷◌, ◌++◌, ◌≡◌, ◌⊎◌, inl, inr,
  refl, ap, ◌∙◌, sym, subst, All, All-append, length, sum_by, arith,
}
use memory_migration_cs.Batch.{Page, PageKind, base, thp, hugetlb, Mover, Progress, run_passes}
use memory_migration_cs.Batch.Driver.{
  Batch, end_round, after_passes, run_rounds, migrate_pages, start, add_retries, finish,
  finish_enomem,
}
use memory_migration_cs.Batch.Loop.{Rest}
use memory_migration_cs.Batch.Conserve.{IsShared, migrate_pages-accounted}
use memory_migration_cs.Batch.Rounds.{
  IsBase, SplitsToBase, IsUnsplit, IsUnsplit-run_passes, IsUnsplit-Rest,
}

-- What is relied on of `split_huge_page_to_list`: only a THP is split, into its base pages.
abbrev pub SplitsThp : {W : Type 0} → Mover W → Type 0
SplitsThp {W} m =
    (v : W) (p head : Page) (tails : List Page)
    → (m.split v p).1 ≡ some (head, tails)
    → (p.kind ≡ thp) × (p.nr ≡ 1 + length tails) × All IsBase (tails ++ (head ∷ []))

-- How many pages can come of one by splitting it.
abbrev most : PageKind → ℕ → ℕ
most thp n = max 1 n
most kind n = 1

abbrev parts : Page → ℕ
parts p = most p.kind p.nr

All-appended : (xs ys : List Page) → All IsBase (xs ++ ys) → All IsBase xs × All IsBase ys
All-appended [] ys h = (tt, h)
All-appended (x ∷ xs) ys h = let (a, b) = All-appended xs ys h.1 in ((h.0, a), b)

parts-base : (p : Page) → IsBase p → parts p ≡ 1
parts-base p h = rw h refl

sum-base : (ps : List Page) → All IsBase ps → sum_by parts ps ≡ length ps
sum-base [] h = refl
sum-base (p ∷ ps) h = omega (arith, parts-base p h.0, sum-base ps h.1)

parts-positive : (k : PageKind) (n : ℕ) → 1 ≤ most k n
parts-positive thp n = omega arith
parts-positive base n = omega arith
parts-positive hugetlb n = omega arith

length_le-sum : (ps : List Page) → length ps ≤ sum_by parts ps
length_le-sum [] = omega arith
length_le-sum (p ∷ ps) = omega (arith, parts-positive p.kind p.nr, length_le-sum ps)

module _ {W : Type 0} (m : Mover W) (law : SplitsThp m) where
  IsShared-parts : IsShared m parts
  IsShared-parts v p head tails h =
      let (kind, nr, plain) = law v p head tails h in
      let (t, hd) = All-appended tails (head ∷ []) plain in
      let whole : parts p ≡ max 1 p.nr = rw kind refl in
      omega (arith, whole, nr, sum-base tails t, parts-base head hd.0)

  pub SplitsThp-SplitsToBase : SplitsToBase m
  SplitsThp-SplitsToBase v p head tails h = (law v p head tails h).2

  module _ (p : Page) (plain : IsBase p) (nosplit : Bool) (w : W) where
    abbrev Same : Page → Type 0
    Same q = q ≡ p

    Same-IsBase : (q : Page) → Same q → IsBase q
    Same-IsBase q e = ap (λ (x : Page). x.kind) e ∙ plain

    unsplit : IsUnsplit Same Same (run_passes m nosplit false 10 (start (p ∷ []) w)).0.lists
    unsplit =
        IsUnsplit-run_passes m nosplit false Same Same Same-IsBase (λ q e. e) 10 (start (p ∷ []) w)
          (record { all_kept = (refl, tt); all_failed = tt; no_split = refl })

    unreached : Rest Same (run_passes m nosplit false 10 (start (p ∷ []) w)).1
    unreached =
        IsUnsplit-Rest m nosplit false Same Same Same-IsBase (λ q e. e) 10 (start (p ∷ []) w)
          (record { all_kept = (refl, tt); all_failed = tt; no_split = refl })

    abbrev Left : Option (Batch W) → Type 0
    Left none = Unit
    Left (some b) = All Same b.from

    Left-after_passes :
        (next : Progress W → Option (Batch W)) (s : Progress W) (stop : Option (List Page))
        → IsUnsplit Same Same s.lists
        → Rest Same stop
        → Left (after_passes next (s, stop))
    unfolding after_passes end_round finish finish_enomem
    Left-after_passes next s (some rest) u r =
        All-append Same s.lists.ret (s.lists.split_pages ++ (s.lists.kept ++ rest)) u.all_failed (
          subst (λ (ps : List Page). All Same (ps ++ (s.lists.kept ++ rest))) (sym u.no_split)
            (All-append Same s.lists.kept rest u.all_kept r))
    Left-after_passes next s none u r =
        subst
          (λ (ps : List Page).
            Left (end_round next ps (record s { counters = add_retries s.counters })))
          (sym u.no_split) (All-append Same s.lists.ret s.lists.kept u.all_failed u.all_kept)

    same_left : Left (migrate_pages m nosplit (p ∷ []) w)
    unfolding migrate_pages run_rounds
    same_left = Left-after_passes (run_rounds m 1 nosplit true) _ _ unsplit unreached

    -- The list is left empty, or with the page on it.
    pub migrate_pages-single :
        (b : Batch W)
        → migrate_pages m nosplit (p ∷ []) w ≡ some b
        → (b.from ≡ []) ⊎ (b.from ≡ p ∷ [])
    migrate_pages-single b e = one b.from (subst Left e same_left) (
        omega (
          arith,
          migrate_pages-accounted m parts IsShared-parts nosplit (p ∷ []) w b e,
          length_le-sum b.from,
          parts-base p plain,
        ))
      where
        one : (ps : List Page) → All Same ps → length ps ≤ 1 → (ps ≡ []) ⊎ (ps ≡ p ∷ [])
        one [] h l = inl refl
        one (q ∷ []) h l = inr (ap (λ (x : Page). x ∷ []) h.0)
        one (q ∷ r ∷ ps) h l = absurd (omega arith)
