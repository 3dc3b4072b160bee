-- ===== src/Tests/EagerRuns.antt =====
-- Runs of `migrate_pages` (arm64_files/migrate.c) in which every page is moved at once.
use memory_migration_cs.Base.{
  ℕ, zero, suc, ◌+◌, Bool, true, false, Option, none, some, List, [], ◌∷◌, ◌≡◌, inl, inr, refl, ap,
  sym, subst, Bool-cases, ◌==◌, ◌&&◌, arith,
}
use memory_migration_cs.Batch.{
  Page, is_hugetlb, Mover, released, Progress, begin_pass, on_success, on_attempt, try_page,
  run_pass, after_pass, run_passes, place_gone,
}
use memory_migration_cs.Batch.Driver.{
  Batch, count, finish, end_round, after_passes, run_rounds, start, migrate_pages,
}
use memory_migration_cs.Batch.Counts.{IsMover}
use memory_migration_cs.Batch.Rounds.{SplitsToBase}

abbrev pub eager : Mover ℕ
eager = record {
  unmap_and_move = λ w p force. released (w + 1);
  unmap_and_move_huge_page = λ w p force. released (w + 1);
  split = λ w p. (w, none);
}

pub eager-IsMover : IsMover eager
eager-IsMover = record { places = λ w p force. tt; places_huge = λ w p force. tt }

pub eager-SplitsToBase : SplitsToBase eager
eager-SplitsToBase v p head tails h = absurd (cc)

-- Nothing has failed and nothing is to be retried.
record IsSmooth (s : Progress ℕ) : Type 0 where
  nothing_kept : s.lists.kept ≡ []
  nothing_returned : s.lists.ret ≡ []
  nothing_split : s.lists.split_pages ≡ []
  no_retry : s.counters.retry ≡ 0
  no_thp_retry : s.counters.thp_retry ≡ 0

-- Each page is moved, and the pass goes on.
try_page-eager :
    (force : Bool) (p : Page) (s : Progress ℕ)
    → try_page eager false false force p s
      ≡ (on_success p (record s { world = s.world + 1 }), false)
unfolding try_page on_attempt
try_page-eager force p s = elim (Bool-cases (is_hugetlb p.kind)) [
  | inl e ↦ rw (e, try_page) refl
  | inr e ↦ rw (e, try_page) refl
]

run_pass-eager :
    (force : Bool) (p : Page) (ps : List Page) (s : Progress ℕ)
    → run_pass eager false false force (p ∷ ps) s
      ≡ run_pass eager false false force ps (on_success p (record s { world = s.world + 1 }))
unfolding run_pass
run_pass-eager force p ps s =
    ap
      (λ (r : Progress ℕ × Bool). elim r.1 as (λ x. Progress ℕ × Option (List Page)) [
        | true ↦ (r.0, some ps)
        | false ↦ run_pass eager false false force ps r.0
      ])
      (try_page-eager force p s)

IsSmooth-run_pass :
    (force : Bool) (ps : List Page) (s : Progress ℕ)
    → IsSmooth s
    → let r = run_pass eager false false force ps s in (r.1 ≡ none) × IsSmooth r.0
unfolding run_pass place_gone
IsSmooth-run_pass force [] s h = (refl, h)
IsSmooth-run_pass force (p ∷ ps) s h =
    subst (λ (r : Progress ℕ × Option (List Page)). (r.1 ≡ none) × IsSmooth r.0)
      (sym (run_pass-eager force p ps s))
      (IsSmooth-run_pass force ps (on_success p (record s { world = s.world + 1 })) (record {
        nothing_kept = h.nothing_kept;
        nothing_returned = h.nothing_returned;
        nothing_split = h.nothing_split;
        no_retry = h.no_retry;
        no_thp_retry = h.no_thp_retry;
      }))

-- No further pass is begun.
run_passes-IsSmooth :
    (left : ℕ) (s : Progress ℕ) → IsSmooth s → run_passes eager false false left s ≡ (s, none)
unfolding run_passes
run_passes-IsSmooth zero s h = refl
run_passes-IsSmooth (suc left) s h =
    let over : (s.counters.retry == 0 && s.counters.thp_retry == 0) ≡ true =
      ground (arith, h.no_retry, h.no_thp_retry) in
    rw (run_passes, over) refl

-- What is returned, if anything is, is 0.
abbrev Returns0 : Option (Batch ℕ) → Type 0
Returns0 none = Unit
Returns0 (some b) = b.rc ≡ count 0

Returns0-after_passes :
    (next : Progress ℕ → Option (Batch ℕ)) (s : Progress ℕ)
    → IsSmooth s
    → Returns0 (after_passes next (s, none))
unfolding after_passes end_round finish
Returns0-after_passes next s h = rw (h.nothing_split, h.nothing_returned, h.nothing_kept) refl

Returns0-after_pass :
    (left : ℕ) (next : Progress ℕ → Option (Batch ℕ)) (r : Progress ℕ × Option (List Page))
    → r.1 ≡ none
    → IsSmooth r.0
    → Returns0 (after_passes next (after_pass (run_passes eager false false left) r))
unfolding after_pass
Returns0-after_pass left next (s, none) e h =
    subst (λ (x : Progress ℕ × Option (List Page)). Returns0 (after_passes next x))
      (sym (run_passes-IsSmooth left s h)) (Returns0-after_passes next s h)
Returns0-after_pass left next (s, some rest) e h = absurd (cc)

pub migrate_pages-eager :
    (ps : List Page) (w : ℕ) (b : Batch ℕ)
    → migrate_pages eager false ps w ≡ some b
    → b.rc ≡ count 0
unfolding migrate_pages run_rounds run_passes
migrate_pages-eager ps w b e =
    let s = begin_pass (start ps w) in
    let (a, h) = IsSmooth-run_pass false ps s (record {
      nothing_kept = refl;
      nothing_returned = refl;
      nothing_split = refl;
      no_retry = refl;
      no_thp_retry = refl;
    }) in
    subst Returns0 e (
      Returns0-after_pass 9 (run_rounds eager 1 false true) (run_pass eager false false false ps s)
        a h)
