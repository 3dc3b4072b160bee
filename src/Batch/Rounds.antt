-- ===== src/Batch/Rounds.antt =====
-- `migrate_pages` (arm64_files/migrate.c) returns: the pages of a split THP are not split again.
use memory_migration_cs.Base.{
  ℕ, Bool, true, false, ◌&&◌, not, Option, none, some, List, [], ◌∷◌, ◌++◌, ◌≡◌, ◌≢◌, refl, All,
  All-append, Errno, enosys, enomem, arith, inl, inr, Option-cases,
}
use memory_migration_cs.Batch.{
  Page, base, is_thp, Attempt, released, stays, returned, Mover, Lists, Progress, Stepped,
  place_kept, place_ret, place_gone, place_split, place_failed, try_split_thp, split_or, on_error,
  on_attempt, try_page, run_passes,
}
use memory_migration_cs.Batch.Driver.{
  Batch, end_round, after_passes, run_rounds, begin_subpages, migrate_pages, start, add_retries,
  finish_enomem,
}
use memory_migration_cs.Batch.Loop.{run_passes-inv, Rest, Rest-run_passes, Any, All-Any}

abbrev pub IsBase : Page → Type 0
IsBase p = p.kind ≡ base

-- What is relied on of `split_huge_page_to_list`: it leaves pages of order 0.
abbrev pub SplitsToBase : {W : Type 0} → Mover W → Type 0
SplitsToBase {W} m =
    (v : W) (p head : Page) (tails : List Page)
    → (m.split v p).1 ≡ some (head, tails)
    → All IsBase (tails ++ (head ∷ []))

-- While base pages are tried nothing is split. `Q` is what is known of the pages that are tried, and
-- `R` of those that have failed.
pub record IsUnsplit (Q R : Page → Type 0) (l : Lists) : Type 0 where
  pub all_kept : All Q l.kept
  pub all_failed : All R l.ret
  pub no_split : l.split_pages ≡ []

module _ {W : Type 0} (m : Mover W) (nosplit nsc : Bool) (Q R : Page → Type 0)
    (base_only : (p : Page) → Q p → IsBase p) (failing : (p : Page) → Q p → R p) where
  IsUnsplit-failed :
      (moved : Bool) (p : Page) (l : Lists)
      → Q p
      → IsUnsplit Q R l
      → IsUnsplit Q R (place_failed moved p l)
  unfolding place_ret place_kept
  IsUnsplit-failed true p l q h = record {
    all_kept = h.all_kept;
    all_failed = All-append R l.ret (p ∷ []) h.all_failed (failing p q, tt);
    no_split = h.no_split;
  }
  IsUnsplit-failed false p l q h = record {
    all_kept = All-append Q l.kept (p ∷ []) h.all_kept (q, tt);
    all_failed = h.all_failed;
    no_split = h.no_split;
  }

  -- A base page is not split.
  IsUnsplit-split_or :
      (may : Bool) (p : Page) (s : Progress W) (otherwise : Progress W → Stepped W)
      → may ≡ false
      → IsUnsplit Q R (otherwise s).0.lists
      → IsUnsplit Q R (split_or m may p s otherwise).0.lists
  unfolding split_or
  IsUnsplit-split_or false p s otherwise e h = h
  IsUnsplit-split_or true p s otherwise e h = absurd (ground arith)

  IsUnsplit-on_error :
      (moved : Bool) (e : Errno) (p : Page) (s : Progress W)
      → Q p
      → IsUnsplit Q R s.lists
      → IsUnsplit Q R (on_error m nosplit nsc moved e p s).0.lists
  unfolding on_error
  IsUnsplit-on_error moved enosys p s q h =
      let plain = base_only p q in
      IsUnsplit-split_or (is_thp p.kind) p _ _ (ground arith) (IsUnsplit-failed true p s.lists q h)
  IsUnsplit-on_error moved enomem p s q h =
      let plain = base_only p q in
      IsUnsplit-split_or (is_thp p.kind && not nosplit) p _ _ (ground arith)
        (IsUnsplit-failed moved p s.lists q h)
  IsUnsplit-on_error moved e p s q h = IsUnsplit-failed moved p s.lists q h

  IsUnsplit-on_attempt :
      (a : Attempt W) (p : Page) (s : Progress W)
      → Q p
      → IsUnsplit Q R s.lists
      → IsUnsplit Q R (on_attempt m nosplit nsc a p s).0.lists
  unfolding on_attempt place_gone
  IsUnsplit-on_attempt (released w) p s q h = record {
    all_kept = h.all_kept;
    all_failed = h.all_failed;
    no_split = h.no_split;
  }
  IsUnsplit-on_attempt (stays e w) p s q h =
      IsUnsplit-on_error false e p (record s { world = w }) q h
  IsUnsplit-on_attempt (returned e w) p s q h =
      IsUnsplit-on_error true e p (record s { world = w }) q h

  IsUnsplit-try_page :
      (force : Bool) (p : Page) (s : Progress W)
      → Q p
      → IsUnsplit Q R s.lists
      → IsUnsplit Q R (try_page m nosplit nsc force p s).0.lists
  unfolding try_page
  IsUnsplit-try_page force p s q h = IsUnsplit-on_attempt _ p s q h

  pub IsUnsplit-run_passes :
      (left : ℕ) (s : Progress W)
      → IsUnsplit Q R s.lists
      → IsUnsplit Q R (run_passes m nosplit nsc left s).0.lists
  IsUnsplit-run_passes left s h =
      run_passes-inv m nosplit nsc Q (λ t. IsUnsplit Q R t.lists) (λ t k. k.all_kept)
        (λ t k. record { all_kept = tt; all_failed = k.all_failed; no_split = k.no_split })
        (λ force p t q k. IsUnsplit-try_page force p t q k) left s h

  pub IsUnsplit-Rest :
      (left : ℕ) (s : Progress W)
      → IsUnsplit Q R s.lists
      → Rest Q (run_passes m nosplit nsc left s).1
  IsUnsplit-Rest left s h =
      Rest-run_passes m nosplit nsc Q (λ t. IsUnsplit Q R t.lists) (λ t k. k.all_kept)
        (λ t k. record { all_kept = tt; all_failed = k.all_failed; no_split = k.no_split })
        (λ force p t q k. IsUnsplit-try_page force p t q k) left s h

module _ {W : Type 0} (m : Mover W) (law : SplitsToBase m) (nosplit nsc : Bool) where
  abbrev SplitsBase : Progress W → Type 0
  SplitsBase s = All IsBase s.lists.split_pages

  based-split_or :
      (may : Bool) (p : Page) (s : Progress W) (otherwise : Progress W → Stepped W)
      → SplitsBase s
      → ((t : Progress W) → SplitsBase t → SplitsBase (otherwise t).0)
      → SplitsBase (split_or m may p s otherwise).0
  unfolding split_or try_split_thp place_split
  based-split_or false p s otherwise h o = o s h
  based-split_or true p s otherwise h o = elim (Option-cases (m.split s.world p).1) [
    | inl e ↦ rw (e, split_or, try_split_thp) (o (record s { world = (m.split s.world p).0 }) h)
    | inr ((head, tails), e) ↦
        rw (e, split_or, try_split_thp)
          (All-append IsBase s.lists.split_pages (tails ++ (head ∷ [])) h
            (law s.world p head tails e))
  ]

  based-failed :
      (moved : Bool) (p : Page) (l : Lists)
      → All IsBase l.split_pages
      → All IsBase (place_failed moved p l).split_pages
  unfolding place_ret place_kept
  based-failed true p l h = h
  based-failed false p l h = h

  based-on_error :
      (moved : Bool) (e : Errno) (p : Page) (s : Progress W)
      → SplitsBase s
      → SplitsBase (on_error m nosplit nsc moved e p s).0
  unfolding on_error
  based-on_error moved enosys p s h =
      based-split_or (is_thp p.kind) p _ _ h (λ t k. based-failed true p t.lists k)
  based-on_error moved enomem p s h =
      based-split_or (is_thp p.kind && not nosplit) p _ _ h (λ t k. based-failed moved p t.lists k)
  based-on_error moved e p s h = based-failed moved p s.lists h

  based-on_attempt :
      (a : Attempt W) (p : Page) (s : Progress W)
      → SplitsBase s
      → SplitsBase (on_attempt m nosplit nsc a p s).0
  unfolding on_attempt place_gone
  based-on_attempt (released w) p s h = h
  based-on_attempt (stays e w) p s h = based-on_error false e p (record s { world = w }) h
  based-on_attempt (returned e w) p s h = based-on_error true e p (record s { world = w }) h

  based-try_page :
      (force : Bool) (p : Page) (s : Progress W)
      → SplitsBase s
      → SplitsBase (try_page m nosplit nsc force p s).0
  unfolding try_page
  based-try_page force p s h = based-on_attempt _ p s h

  based-run_passes :
      (left : ℕ) (s : Progress W) → SplitsBase s → SplitsBase (run_passes m nosplit nsc left s).0
  based-run_passes left s h =
      run_passes-inv m nosplit nsc Any SplitsBase (λ t k. All-Any t.lists.kept) (λ t k. k)
        (λ force p t q k. based-try_page force p t k) left s h

module _ {W : Type 0} where
  -- A round ends with a return unless it goes on with split pages.
  returns-after_passes :
      (next : Progress W → Option (Batch W)) (s : Progress W) (stop : Option (List Page))
      → (s.lists.split_pages ≢ []
          → (b : Batch W) × (next (begin_subpages (record s { counters = add_retries s.counters }))
              ≡ some b))
      → (b : Batch W) × (after_passes next (s, stop) ≡ some b)
  unfolding after_passes end_round
  returns-after_passes next s (some rest) h = (finish_enomem rest s, refl)
  returns-after_passes next s none h = returns-end_round s.lists.split_pages h
    where
      returns-end_round :
          (ps : List Page)
          → (ps ≢ []
              → (b : Batch W) × (next
                    (begin_subpages (record s { counters = add_retries s.counters }))
                  ≡ some b))
          → (b : Batch W) × (end_round next ps (record s { counters = add_retries s.counters })
              ≡ some b)
      returns-end_round [] h = (_, refl)
      returns-end_round (p ∷ ps) h = h (λ e. cc)

-- If splitting a THP leaves base pages, `migrate_pages` returns, after two rounds of at most ten
-- passes, whatever the single moves do.
pub migrate_pages-returns :
    {W : Type 0} (m : Mover W)
    → SplitsToBase m
    → (nosplit : Bool) (from : List Page) (w : W)
    → (b : Batch W) × (migrate_pages m nosplit from w ≡ some b)
unfolding migrate_pages run_rounds
migrate_pages-returns m law nosplit from w =
    let first = run_passes m nosplit false 10 (start from w) in
    let s = first.0 in
    let t = begin_subpages (record s { counters = add_retries s.counters }) in
    let second = run_passes m nosplit true 10 t in
    returns-after_passes (run_rounds m 1 nosplit true) first.0 first.1 λ ne.
      returns-after_passes (run_rounds m 0 nosplit true) second.0 second.1 λ ne'. absurd (
        ne'
          (IsUnsplit-run_passes m nosplit true IsBase Any (λ p b. b) (λ p b. tt) 10 t
            (record {
              all_kept = based-run_passes m law nosplit false 10 (start from w) tt;
              all_failed = All-Any t.lists.ret;
              no_split = refl;
            })).no_split)
