-- ===== src/Batch/Conserve.antt =====
-- `migrate_pages` of arm64_files/migrate.c loses no page and counts none twice.
use memory_migration_cs.Base.{
  ℕ, zero, suc, ◌+◌, ◌-◌, ltb, Bool, true, false, ◌&&◌, Option, none, some, List, [], ◌∷◌, ◌++◌,
  ◌≡◌, refl, ap, ◌∙◌, sum_by, sum_by-append, Errno, arith, inl, inr, Option-cases, not,
}
use memory_migration_cs.Batch.{
  Page, is_thp, Attempt, released, stays, returned, Mover, Lists, Progress, Stepped, place_kept,
  place_ret, place_gone, place_split, place_failed, try_split_thp, split_or, on_error, on_attempt,
  try_page, run_pass, run_passes, begin_pass,
}
use memory_migration_cs.Batch.Driver.{
  finish, finish_enomem, run_rounds, begin_subpages, end_round, after_passes, migrate_pages, Batch,
  start,
}

-- A measure of pages that a split shares out between the head and the tails.
abbrev pub IsShared : {W : Type 0} → Mover W → (Page → ℕ) → Type 0
IsShared {W} m weigh =
    (v : W) (p head : Page) (tails : List Page)
    → (m.split v p).1 ≡ some (head, tails)
    → weigh p ≡ weigh head + sum_by weigh tails

-- The measure of all pages that the lists hold.
abbrev pub held : (Page → ℕ) → Lists → ℕ
held weigh l =
    sum_by weigh l.kept + sum_by weigh l.ret + sum_by weigh l.split_pages + sum_by weigh l.gone

module _ (weigh : Page → ℕ) (p : Page) (l : Lists) where
  held-place_kept : held weigh (place_kept p l) ≡ held weigh l + weigh p
  unfolding place_kept
  held-place_kept = omega (arith, sum_by-append {0} weigh l.kept (p ∷ []))

  held-place_ret : held weigh (place_ret p l) ≡ held weigh l + weigh p
  unfolding place_ret
  held-place_ret = omega (arith, sum_by-append {0} weigh l.ret (p ∷ []))

  held-place_gone : held weigh (place_gone p l) ≡ held weigh l + weigh p
  unfolding place_gone
  held-place_gone = omega (arith, sum_by-append {0} weigh l.gone (p ∷ []))

  held-place_failed : (moved : Bool) → held weigh (place_failed moved p l) ≡ held weigh l + weigh p
  held-place_failed true = held-place_ret
  held-place_failed false = held-place_kept

  held-place_split :
      (tails : List Page)
      → held weigh (place_split p tails l) ≡ held weigh l + weigh p + sum_by weigh tails
  unfolding place_split
  held-place_split tails = omega (
    arith,
    sum_by-append {0} weigh l.split_pages (tails ++ (p ∷ [])),
    sum_by-append {0} weigh tails (p ∷ []),
  )

module _ {W : Type 0} (m : Mover W) (weigh : Page → ℕ) (share : IsShared m weigh) where
  -- The case of a page that may be split: it is split, or the rest of the case places it.
  held-split_or :
      (may : Bool) (p : Page) (s : Progress W) (otherwise : Progress W → Stepped W)
      → ((t : Progress W) → held weigh (otherwise t).0.lists ≡ held weigh t.lists + weigh p)
      → held weigh (split_or m may p s otherwise).0.lists ≡ held weigh s.lists + weigh p
  unfolding split_or try_split_thp
  held-split_or false p s otherwise h = h s
  held-split_or true p s otherwise h = elim (Option-cases (m.split s.world p).1) [
    | inl e ↦ rw (e, split_or, try_split_thp) (h (record s { world = (m.split s.world p).0 }))
    | inr ((head, tails), e) ↦
        rw (e, split_or, try_split_thp)
          (omega (arith, held-place_split weigh head s.lists tails, share s.world p head tails e))
  ]

  held-on_error :
      (nosplit nsc moved : Bool) (e : Errno) (p : Page) (s : Progress W)
      → held weigh (on_error m nosplit nsc moved e p s).0.lists ≡ held weigh s.lists + weigh p
  unfolding on_error
  held-on_error nosplit nsc moved Errno.enosys p s =
      held-split_or (is_thp p.kind) p _ _ (λ t. held-place_ret weigh p t.lists)
  held-on_error nosplit nsc moved Errno.enomem p s =
      held-split_or (is_thp p.kind && not nosplit) p _ _
        (λ t. held-place_failed weigh p t.lists moved)
  held-on_error nosplit nsc moved e p s = held-place_failed weigh p s.lists moved

  held-on_attempt :
      (nosplit nsc : Bool) (a : Attempt W) (p : Page) (s : Progress W)
      → held weigh (on_attempt m nosplit nsc a p s).0.lists ≡ held weigh s.lists + weigh p
  unfolding on_attempt
  held-on_attempt nosplit nsc (released w) p s = held-place_gone weigh p s.lists
  held-on_attempt nosplit nsc (stays e w) p s = held-on_error nosplit nsc false e p _
  held-on_attempt nosplit nsc (returned e w) p s = held-on_error nosplit nsc true e p _

  held-try_page :
      (nosplit nsc force : Bool) (p : Page) (s : Progress W)
      → held weigh (try_page m nosplit nsc force p s).0.lists ≡ held weigh s.lists + weigh p
  unfolding try_page
  held-try_page nosplit nsc force p s = held-on_attempt nosplit nsc _ p s

  -- The pages that a `goto out` has not reached.
  abbrev rest_of : Option (List Page) → List Page
  rest_of none = []
  rest_of (some ps) = ps

  held-run_pass :
      (nosplit nsc force : Bool) (ps : List Page) (s : Progress W)
      → let (s', stop) = run_pass m nosplit nsc force ps s in
        held weigh s'.lists + sum_by weigh (rest_of stop) ≡ held weigh s.lists + sum_by weigh ps
  unfolding run_pass
  held-run_pass nosplit nsc force [] s = refl
  held-run_pass nosplit nsc force (p ∷ ps) s = ground (
    arith,
    held-try_page nosplit nsc force p s,
    held-run_pass nosplit nsc force ps (try_page m nosplit nsc force p s).0,
  )

  held-run_passes :
      (nosplit nsc : Bool) (left : ℕ) (s : Progress W)
      → let (s', stop) = run_passes m nosplit nsc left s in
        held weigh s'.lists + sum_by weigh (rest_of stop) ≡ held weigh s.lists
  unfolding run_passes
  held-run_passes nosplit nsc zero s = omega arith
  held-run_passes nosplit nsc (suc left) s =
      let pass = run_pass m nosplit nsc (ltb 2 (10 - suc left)) s.lists.kept (begin_pass s) in
      ground (
        arith,
        held-run_pass nosplit nsc (ltb 2 (10 - suc left)) s.lists.kept (begin_pass s),
        held-run_passes nosplit nsc left pass.0,
      )

  -- All that a return of `migrate_pages` accounts for.
  abbrev accounted : Batch W → ℕ
  accounted b = sum_by weigh b.from + sum_by weigh b.gone

  held-finish_enomem :
      (rest : List Page) (s : Progress W)
      → accounted (finish_enomem rest s) ≡ held weigh s.lists + sum_by weigh rest
  unfolding finish_enomem finish
  held-finish_enomem rest s = omega (
    arith,
    sum_by-append {0} weigh s.lists.ret (s.lists.split_pages ++ (s.lists.kept ++ rest)),
    sum_by-append {0} weigh s.lists.split_pages (s.lists.kept ++ rest),
    sum_by-append {0} weigh s.lists.kept rest,
  )

  held-end_round :
      (next : Progress W → Option (Batch W)) (ps : List Page) (s : Progress W) (b : Batch W)
      → ps ≡ s.lists.split_pages
      → ((t : Progress W) → next t ≡ some b → accounted b ≡ held weigh t.lists)
      → end_round next ps s ≡ some b
      → accounted b ≡ held weigh s.lists
  unfolding end_round finish
  held-end_round next [] s b e ih h =
      let parts : sum_by weigh [] ≡ sum_by weigh s.lists.split_pages = ap (sum_by weigh) e in
      ground (arith, sum_by-append {0} weigh s.lists.ret s.lists.kept)
  held-end_round next (p ∷ ps) s b e ih h =
      omega (arith, ih (begin_subpages s) h, sum_by-append {0} weigh s.lists.kept s.lists.ret)

  held-after_passes :
      (next : Progress W → Option (Batch W)) (s : Progress W) (stop : Option (List Page))
      (b : Batch W)
      → ((t : Progress W) → next t ≡ some b → accounted b ≡ held weigh t.lists)
      → after_passes next (s, stop) ≡ some b
      → accounted b ≡ held weigh s.lists + sum_by weigh (rest_of stop)
  unfolding after_passes
  held-after_passes next s (some rest) b ih h = ground (arith, held-finish_enomem rest s)
  held-after_passes next s none b ih h =
      let end = held-end_round next s.lists.split_pages _ b refl ih h in omega arith

  held-run_rounds :
      (n : ℕ) (nosplit nsc : Bool) (s : Progress W) (b : Batch W)
      → run_rounds m n nosplit nsc s ≡ some b
      → accounted b ≡ held weigh s.lists
  unfolding run_rounds
  held-run_rounds zero nosplit nsc s b h = cc
  held-run_rounds (suc n) nosplit nsc s b h =
      held-after_passes (run_rounds m n nosplit true) (run_passes m nosplit nsc 10 s).0
        (run_passes m nosplit nsc 10 s).1 b (λ t k. held-run_rounds n nosplit true t b k) h
      ∙ held-run_passes nosplit nsc 10 s

  -- `migrate_pages` loses no page and counts none twice: by any measure that a split of a THP shares
  -- out among its pages, the list that it leaves and the pages that were migrated weigh together what
  -- the list weighed that it was called with.
  pub migrate_pages-accounted :
      (nosplit : Bool) (from : List Page) (w : W) (b : Batch W)
      → migrate_pages m nosplit from w ≡ some b
      → sum_by weigh b.from + sum_by weigh b.gone ≡ sum_by weigh from
  unfolding migrate_pages
  migrate_pages-accounted nosplit from w b h =
      omega (arith, held-run_rounds 2 nosplit false (start from w) b h)
