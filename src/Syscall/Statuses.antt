-- ===== src/Syscall/Statuses.antt =====
-- What `do_pages_move` (arm64_files/migrate.c) has written to the user's statuses when it returns 0.
use memory_migration_cs.Base.{
  ℕ, zero, suc, ◌+◌, ◌-◌, ◌^◌, length, ◌≤◌, ◌<◌, ◌==◌, ltb, ◌||◌, Bool, true, false, not, Option,
  none, some, List, [], ◌∷◌, ◌≡◌, inl, inr, refl, if◌then◌else◌, sym, ap, ◌∙◌, subst, Errno, arith,
  Bool-cases,
}
use memory_migration_cs.Batch.{Page}
use native.Mathlib.Decide.{dec_lt}
use memory_migration_cs.Batch.Driver.{Batch, Verdict, count, error, migrate_pages}
use memory_migration_cs.Batch.Counts.{IsMover}
use memory_migration_cs.Batch.Outcome.{migrate_pages-verdict}
use memory_migration_cs.Batch.Rounds.{SplitsToBase}
use memory_migration_cs.Syscall.Empties.{Emptied, do_pages_move-Emptied}
use memory_migration_cs.Syscall.{
  Status, Request, MoveKernel, Added, queued, on_target, not_added, store_status,
  do_move_pages_to_node, after_migrate_pages, add_page_for_migration, failed, on_node,
}
use memory_migration_cs.Syscall.Loop.{
  move_listed, move_pages_and_store_status, keep_error, out_flush, read_request, if_moved,
  account_one, report, node_allowed, read_node, read_page, reported, after_add, add_step, at_node,
  one_page, move_loop, do_pages_move,
}
use memory_migration_cs.Syscall.Collects.{
  Stated, Upto, Collects, Moved, Ends, Tried, Tried-after_migrate_pages, Moved-after_move,
  Ends-keep_error, Adds, Adds-add_found, Collects-Framed,
}

-- The indices of `do_pages_move`, which are of type `int`, and what it counts fit an `int`: a count
-- that `migrate_pages` returns for a list of no more than `nr` entries, with the pages that are not
-- tried.
pub record FitsInt {W : Type 0} (k : MoveKernel W) (nr : ℕ) : Type 0 where
  pub indices : nr < 2 ^ 31
  pub counts :
      (target : Option ℕ) (ps : List Page) (w : W) (b : Batch W) (n : ℕ)
      → length ps ≤ nr
      → migrate_pages (k.mover target) false ps w ≡ some b
      → b.rc ≡ count n
      → n + nr < 2 ^ 31

-- The moves of single pages place a page as `migrate_pages` expects.
module _ {W : Type 0} (k : MoveKernel W) (places : (target : Option ℕ) → IsMover (k.mover target))
    (nr : ℕ) (fits : FitsInt k nr) where
  Tried-do_move_pages_to_node :
      (s : Request W) (target : Option ℕ) → Tried k nr s (do_move_pages_to_node k s target)
  unfolding do_move_pages_to_node
  Tried-do_move_pages_to_node s target =
      Tried-after_migrate_pages k nr s (migrate_pages (k.mover target) false s.pagelist s.world)
        λ b e. migrate_pages-verdict (k.mover target) false (places target) s.pagelist s.world b e

  counted_move :
      (s : Request W) (target : Option ℕ)
      → length s.pagelist ≤ nr
      → (n : ℕ) (t : Request W) → do_move_pages_to_node k s target ≡ some (count n, t)
      → n + nr < 2 ^ 31
  unfolding do_move_pages_to_node
  counted_move s target l n t e =
      counted (migrate_pages (k.mover target) false s.pagelist s.world) refl e
    where
      counted :
          (o : Option (Batch W))
          → migrate_pages (k.mover target) false s.pagelist s.world ≡ o
          → after_migrate_pages k s o ≡ some (count n, t)
          → n + nr < 2 ^ 31
      counted none e h = cc
      counted (some b) e h = fits.counts target s.pagelist s.world b n l e cc

  no_pages : {i : ℕ} {ps : List Page} → ps ≡ [] → length ps ≤ i
  no_pages {i} e = subst (λ (l : List Page). length l ≤ i) (sym e) (omega arith)

  shorter :
      {i c : ℕ} (s : Request W) {ps : List Page}
      → ps ≡ s.pagelist
      → Collects k nr i s (some c)
      → length ps ≤ i
  shorter {i} s e h = subst (λ (l : List Page). length l ≤ i) (sym e) h.4

  Moved-move_pages_and_store_status :
      (c i : ℕ) (s : Request W)
      → i ≤ nr
      → Collects k nr i s (some c)
      → Moved k nr i s.status (move_pages_and_store_status k (some c) i nr s)
  unfolding move_pages_and_store_status
  Moved-move_pages_and_store_status c i s below h = listed s.pagelist refl
    where
      listed :
          (ps : List Page)
          → s.pagelist ≡ ps
          → Moved k nr i s.status (move_listed k (some c) i nr s ps)
      listed [] e =
          (λ z. (λ j l. h.0 j (omega (arith, h.3 e)), e, λ j l. refl), λ z. absurd (z refl))
      listed (p ∷ ps) e =
          Moved-after_move k nr c i s (do_move_pages_to_node k s (some c))
            (Tried-do_move_pages_to_node s (some c)) h
            (counted_move s (some c) (omega (arith, h.4, below)))

  -- The end of the loop.
  Ends-out_flush :
      (s : Request W)
      → Collects k nr nr s s.current_node
      → Ends k nr (out_flush k nr nr (count 0) s)
  unfolding out_flush move_pages_and_store_status
  Ends-out_flush s h = flushed s.current_node h
    where
      kept :
          (st : ℕ → Status) (o : Option (Verdict × Request W))
          → Moved k nr nr st o
          → Ends k nr (keep_error k (count 0) o)
      kept st none m = tt
      kept st (some (count n, t)) m = λ z. (m.0 z).0
      kept st (some (error e, t)) m = tt

      flushed :
          (c : Option ℕ)
          → Collects k nr nr s c
          → Ends k nr (keep_error k (count 0) (move_pages_and_store_status k c nr nr s))
      flushed (some c) g =
          kept s.status (move_pages_and_store_status k (some c) nr nr s)
            (Moved-move_pages_and_store_status c nr s (omega arith) g)
      flushed none g =
          subst
            (λ (ps : List Page). Ends k nr (keep_error k (count 0) (move_listed k none nr nr s ps)))
            (sym g.1) (λ z. g.0)

  -- A request that is read names the node that the user has asked for.
  abbrev Reads : ℕ → Verdict × Option (ℕ × ℕ) → Type 0
  Reads i (count n, none) = ⊥
  Reads i (error e, none) = Unit
  Reads i (v, some (addr, node)) = k.node_at i ≡ some (some node)

  Reads-read_request : (i : ℕ) → Reads i (read_request k i)
  unfolding read_request
  Reads-read_request i = from_page (k.page_at i) (k.node_at i) refl
    where
      allowed :
          (addr node : ℕ) → k.node_at i ≡ some (some node) → Reads i (node_allowed k addr node)
      allowed addr node e =
          elim (Bool-cases (not (ltb node k.max_nodes) || not (k.has_memory node))) [
            | inl a ↦ rw a tt
            | inr a ↦
                rw a (elim (Bool-cases (k.task_nodes node)) [ inl b ↦ rw b e | inr b ↦ rw b tt ])
          ]

      from_node :
          (addr : ℕ) (n : Option (Option ℕ)) → k.node_at i ≡ n → Reads i (read_node k addr n)
      from_node addr none e = tt
      from_node addr (some none) e = tt
      from_node addr (some (some node)) e = allowed addr node e

      from_page :
          (p : Option ℕ) (n : Option (Option ℕ)) → k.node_at i ≡ n → Reads i (read_page k i p)
      from_page none n e = tt
      from_page (some addr) n e = from_node addr (k.node_at i) refl

  module _ (i : ℕ) (below : i < nr) (next : Request W → Option (Verdict × Request W))
      (go_on : (s : Request W) → Collects k nr (i + 1) s s.current_node → Ends k nr (next s)) where
    Ends-if_moved :
        (leave : Verdict → Verdict) (after : Request W → Option (Verdict × Request W))
        (st : ℕ → Status) (o : Option (Verdict × Request W))
        → ((n : ℕ)
            → nr - i < n
            → n < 2 ^ 31
            → (t : Request W) → Ends k nr (some (leave (count n), t)))
        → ((e : Errno) (t : Request W) → Ends k nr (some (leave (error e), t)))
        → ((t : Request W)
            → Upto k nr i t.status
            → t.pagelist ≡ []
            → ((j : ℕ) → i ≤ j → t.status j ≡ st j)
            → Ends k nr (after t))
        → Moved k nr i st o
        → Ends k nr (if_moved k leave after o)
    Ends-if_moved leave after st none f g h m = tt
    Ends-if_moved leave after st (some (count zero, t)) f g h m =
        let (a, b, c) = m.0 refl in h t a b c
    Ends-if_moved leave after st (some (count (suc n), t)) f g h m =
        let (more, small) = m.1 (omega arith) in f (suc n) more small t
    Ends-if_moved leave after st (some (error e, t)) f g h m = g e t

    Ends-report :
        (node : ℕ) (s : Request W) (r : Verdict × (ℕ → Status))
        → Collects k nr i s (some node)
        → ((n : ℕ) → r.0 ≡ count n → Stated k i (r.1 i) × ((j : ℕ) → j < i → r.1 j ≡ s.status j))
        → Ends k nr
            (report k (move_pages_and_store_status k (some node) i nr) (out_flush k i nr) next s r)
    unfolding out_flush
    Ends-report node s (error e, st) h w =
        Ends-keep_error k nr e
          (move_pages_and_store_status k s.current_node i nr (record s { status = st }))
    Ends-report node s (count n, st) h w =
        Ends-if_moved (account_one k) (λ t. next (record t { current_node = none })) st
          (move_pages_and_store_status k (some node) i nr (record s { status = st }))
          (λ m l small t z. absurd (ground (arith, l, small, z))) (λ e t. tt)
          (λ t a b c.
            go_on (record t { current_node = none })
              (
                λ j l. elim (dec_lt j i) [
                  | yes lt ↦ a j lt
                  | no ge ↦
                      let last : j ≡ i = omega arith in
                      subst (λ (x : ℕ). Stated k x (t.status x)) (sym last)
                        (subst (Stated k i) (sym (c i (omega arith))) (w n refl).0)
                ],
                b,
              ))
          (Moved-move_pages_and_store_status node i (record s { status = st })
            (omega (arith, below))
            (
              λ j l. subst (Stated k j) (sym ((w n refl).1 j (omega arith))) (h.0 j l),
              h.1,
              h.2,
              h.3,
              h.4,
            ))

    Ends-after_add :
        (node : ℕ) (s : Request W) (r : Added × Request W)
        → Collects k nr i s (some node)
        → s.current_node ≡ some node
        → k.node_at i ≡ some (some node)
        → Adds k nr s r
        → Ends k nr (after_add k i nr node next r)
    unfolding store_status
    Ends-after_add node s (queued, t) h c a (f, listed, longer) = go_on t (
        subst (Collects k nr (i + 1) t) (sym (f.2 ∙ c)) (
          subst (Upto k nr t.start) (sym f.0)
              (subst (λ (x : ℕ). Upto k nr x s.status) (sym f.1) h.0),
          λ j l m. elim (dec_lt j i) [
            | yes lt ↦ h.1 j (omega (arith, l, f.1)) lt
            | no ge ↦
                let last : i ≡ j = omega arith in
                subst (λ (x : ℕ). k.node_at x ≡ some (some node)) last a
          ],
          omega (arith, f.1, h.2),
          λ e. absurd (listed e),
          omega (arith, longer, h.4),
        ))
    Ends-after_add node s (on_target, t) h c a (f, same) =
        Ends-report node t (store_status k.can_put t.status i (on_node node) 1)
          (Collects-Framed k nr node i s t f (λ e. sym same ∙ e) (shorter s same h) h)
          (λ n q. ((node, a, inl (ground arith)), λ j l. ground arith))
    Ends-after_add node s (not_added e, t) h c a (f, same) =
        Ends-report node t (store_status k.can_put t.status i (failed (reported k e)) 1)
          (Collects-Framed k nr node i s t f (λ e. sym same ∙ e) (shorter s same h) h)
          (λ n q. ((node, a, inr (reported k e, ground arith)), λ j l. ground arith))

    Ends-add_step :
        (all : Bool) (addr node : ℕ) (s : Request W)
        → Collects k nr i s (some node)
        → s.current_node ≡ some node
        → k.node_at i ≡ some (some node)
        → Ends k nr (add_step k all i nr addr node next s)
    unfolding add_page_for_migration
    Ends-add_step all addr node s h c a =
        Ends-after_add node s (add_page_for_migration k s addr node all) h c a
          (Adds-add_found k nr s node all (k.lookup s.world addr))

    Ends-at_node :
        (all : Bool) (addr node : ℕ) (s : Request W) (current : Option ℕ)
        → Collects k nr i s current
        → s.current_node ≡ current
        → k.node_at i ≡ some (some node)
        → Ends k nr (at_node k all i nr addr node next s current)
    Ends-at_node all addr node s none h c a =
        Ends-add_step all addr node (record s { current_node = some node; start = i })
          (h.0, λ j l m. absurd (omega arith), omega arith, λ e. refl, no_pages h.1) refl a
    Ends-at_node all addr node s (some d) h c a = same_node (d == node) refl
      where
        same_node :
            (b : Bool)
            → (d == node) ≡ b
            → Ends k nr (
                if b
                then add_step k all i nr addr node next s
                else if_moved k
                    (λ v. v)
                    (λ t.
                      add_step k all i nr addr node next
                        (record t { current_node = some node; start = i }))
                    (move_pages_and_store_status k (some d) i nr s))
        same_node true e =
            let same : d ≡ node = ground arith in
            Ends-add_step all addr node s (subst (λ (x : ℕ). Collects k nr i s (some x)) same h)
              (c ∙ ap some same) a
        same_node false e =
            Ends-if_moved (λ v. v)
              (λ t.
                add_step k all i nr addr node next
                  (record t { current_node = some node; start = i }))
              s.status (move_pages_and_store_status k (some d) i nr s)
              (λ n l small t z. absurd (omega (arith, l, z))) (λ e t. tt)
              (λ t u v w.
                Ends-add_step all addr node (record t { current_node = some node; start = i })
                  (u, λ j l m. absurd (omega arith), omega arith, λ e. refl, no_pages v) refl a)
              (Moved-move_pages_and_store_status d i s (omega (arith, below)) h)

    Ends-one_page :
        (all : Bool) (s : Request W) (r : Verdict × Option (ℕ × ℕ))
        → Collects k nr i s s.current_node
        → Reads i r
        → Ends k nr (one_page k all i nr next s r)
    unfolding out_flush
    Ends-one_page all s (count n, none) h q = absurd q
    Ends-one_page all s (error e, none) h q =
        Ends-keep_error k nr e (move_pages_and_store_status k s.current_node i nr s)
    Ends-one_page all s (count n, some (addr, node)) h q =
        Ends-at_node all addr node s s.current_node h refl q
    Ends-one_page all s (error e, some (addr, node)) h q =
        Ends-at_node all addr node s s.current_node h refl q

  Ends-move_loop :
      (all : Bool) (left i : ℕ) (s : Request W)
      → i + left ≡ nr
      → Collects k nr i s s.current_node
      → Ends k nr (move_loop k all left i nr s)
  unfolding move_loop
  Ends-move_loop all zero i s e h =
      let last : i ≡ nr = omega (arith, e) in
      subst (λ (x : ℕ). Ends k nr (out_flush k x nr (count 0) s)) (sym last)
        (Ends-out_flush s (subst (λ (x : ℕ). Collects k nr x s s.current_node) last h))
  Ends-move_loop all (suc left) i s e h =
      Ends-one_page i (omega (arith, e)) (move_loop k all left (i + 1) nr)
        (λ t g. Ends-move_loop all left (i + 1) t (omega (arith, e)) g) all s (read_request k i) h
        (Reads-read_request i)

-- `do_pages_move` returns, and when it returns 0 it has written every status: that of each page is
-- the node that the user has asked for, or an error. This relies on single moves that place a page
-- as `migrate_pages` expects, on splits into base pages, and on indices and counts that fit an `int`.
pub do_pages_move-Stated :
    {W : Type 0} (k : MoveKernel W)
    → ((target : Option ℕ) → IsMover (k.mover target))
    → ((target : Option ℕ) → SplitsToBase (k.mover target))
    → (migrate_all : Bool) (nr : ℕ) → FitsInt k nr
    → (st : ℕ → Status) (w : W)
    → (r : Verdict × Request W) × (do_pages_move k migrate_all nr st w ≡ some r)
      × (r.0 ≡ count 0 → (j : ℕ) → j < nr → Stated k j (r.1.status j))
unfolding do_pages_move
do_pages_move-Stated {W} k places splits migrate_all nr fits st w =
    returned (do_pages_move k migrate_all nr st w) refl
      (do_pages_move-Emptied k places splits migrate_all nr st w)
      (Ends-move_loop k places nr fits migrate_all nr 0 _ (omega arith)
        (λ j l. absurd (omega arith), refl))
  where
    returned :
        (o : Option (Verdict × Request W))
        → do_pages_move k migrate_all nr st w ≡ o
        → Emptied o
        → Ends k nr o
        → (r : Verdict × Request W) × (do_pages_move k migrate_all nr st w ≡ some r)
          × (r.0 ≡ count 0 → (j : ℕ) → j < nr → Stated k j (r.1.status j))
    returned none e h g = absurd h
    returned (some (count n, s)) e h g = ((count n, s), e, λ z. g (count_zero n z))
      where
        count_zero : (n : ℕ) → Verdict.count n ≡ count 0 → n ≡ 0
        count_zero n z = cc
    returned (some (error x, s)) e h g = ((error x, s), e, λ z. absurd (cc))
