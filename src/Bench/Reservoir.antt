-- ===== src/Bench/Reservoir.antt =====
-- The reservoir of latencies of a phase (arm64_files/mig_bench_e.c, `worker`).
use memory_migration_cs.Base.{
  ℕ, zero, suc, ◌+◌, ◌%◌, ◌≤◌, ◌<◌, min, ltb, ◌==◌, List, [], ◌∷◌, ◌++◌, ◌≡◌, ◌⊎◌, inl, inr, refl,
  sym, subst, ◌∙◌, ap, update, length, length-append, append-nil, append_assoc, Bool-cases, arith,
}
use memory_migration_cs.Bench.{PStats, no_stats, max_samples, lcg, record_latency}

-- A timed operation: the state of the thread's generator when its latency is recorded, which the
-- steps to the pages since the last one have changed too, and the latency.
abbrev pub Timed : Type 0
Timed = ℕ × ℕ

abbrev pub seen_by : List Timed → List ℕ
seen_by [] = []
seen_by ((rng, lat) ∷ ops) = lat ∷ seen_by ops

-- A phase's timed operations, one after the other.
unfoldable pub record_all : List Timed → PStats → PStats
unfolding record_latency
record_all [] s = s
record_all ((rng, lat) ∷ ops) s = record_all ops (record_latency lat (rng, s)).1

-- A number that stands on a list.
abbrev pub Among : ℕ → List ℕ → Type 0
Among x [] = ⊥
Among x (y ∷ ys) = (x ≡ y) ⊎ Among x ys

pub Among-append : (x : ℕ) (xs ys : List ℕ) → Among x xs → Among x (xs ++ ys)
Among-append x [] ys h = absurd h
Among-append x (y ∷ xs) ys (inl e) = inl e
Among-append x (y ∷ xs) ys (inr h) = inr (Among-append x xs ys h)

pub Among-last : (x : ℕ) (xs : List ℕ) → Among x (xs ++ (x ∷ []))
Among-last x [] = inl refl
Among-last x (y ∷ xs) = inr (Among-last x xs)

-- The entry of a list at an index, 0 behind its end.
abbrev pub entry : List ℕ → ℕ → ℕ
entry [] i = 0
entry (x ∷ xs) zero = x
entry (x ∷ xs) (suc i) = entry xs i

entry-append : (xs : List ℕ) (y i : ℕ) → i < length xs → entry (xs ++ (y ∷ [])) i ≡ entry xs i
entry-append [] y i h = absurd (omega arith)
entry-append (x ∷ xs) y zero h = refl
entry-append (x ∷ xs) y (suc i) h = entry-append xs y i (omega arith)

entry-last : (xs : List ℕ) (y : ℕ) → entry (xs ++ (y ∷ [])) (length xs) ≡ y
entry-last [] y = refl
entry-last (x ∷ xs) y = entry-last xs y

-- What the reservoir is of the latencies that were seen: as many as fit, each one of them, and all
-- of them in order while they fit.
pub record IsReservoir (seen : List ℕ) (s : PStats) : Type 0 where
  pub counted : s.n_seen ≡ length seen
  pub filled : s.n_samp ≡ min (length seen) max_samples
  pub drawn : (i : ℕ) → i < s.n_samp → Among (s.samp i) seen
  pub complete : length seen ≤ max_samples → (i : ℕ) → i < length seen → s.samp i ≡ entry seen i

-- One more latency.
module _ (seen : List ℕ) (lat : ℕ) (s : PStats) (h : IsReservoir seen s) where
  longer : length (seen ++ (lat ∷ [])) ≡ length seen + 1
  longer = omega (arith, length-append seen (lat ∷ []))

  Among-update :
      (at i : ℕ) → Among (s.samp i) seen → Among (update s.samp at lat i) (seen ++ (lat ∷ []))
  Among-update at i a = elim (Bool-cases (at == i)) [
    | inl e ↦ rw e (Among-last lat seen)
    | inr e ↦ rw e (Among-append (s.samp i) seen (lat ∷ []) a)
  ]

  IsReservoir-pushed :
      s.n_samp < max_samples
      → IsReservoir (seen ++ (lat ∷ [])) (record s {
        n_seen = s.n_seen + 1;
        samp = update s.samp s.n_samp lat;
        n_samp = s.n_samp + 1;
      })
  IsReservoir-pushed lt = record {
    counted = omega (arith, h.counted, longer);
    filled = omega (arith, h.filled, longer);
    drawn = λ i l. elim (Bool-cases (s.n_samp == i)) [
      | inl e ↦ rw e (Among-last lat seen)
      | inr e ↦ rw e (Among-append (s.samp i) seen (lat ∷ []) (h.drawn i (ground arith)))
    ];
    complete = λ fits i l. elim (Bool-cases (s.n_samp == i)) [
      | inl e ↦
          let last : i ≡ length seen = ground (arith, h.filled) in
          rw e (sym (ap (entry (seen ++ (lat ∷ []))) last ∙ entry-last seen lat))
      | inr e ↦
          let below : i < length seen = ground (arith, h.filled, longer) in
          rw e (h.complete (omega (arith, longer)) i below ∙ sym (entry-append seen lat i below))
    ];
  }

  IsReservoir-replaced :
      (r : ℕ)
      → max_samples ≤ s.n_samp
      → IsReservoir
          (seen ++ (lat ∷ []))
          (record s { n_seen = s.n_seen + 1; samp = update s.samp r lat })
  IsReservoir-replaced r full = record {
    counted = omega (arith, h.counted, longer);
    filled = omega (arith, h.filled, longer);
    drawn = λ i l. Among-update r i (h.drawn i l);
    complete = λ fits i l. absurd (omega (arith, h.filled, longer));
  }

  IsReservoir-passed :
      max_samples ≤ s.n_samp → IsReservoir (seen ++ (lat ∷ [])) (record s { n_seen = s.n_seen + 1 })
  IsReservoir-passed full = record {
    counted = omega (arith, h.counted, longer);
    filled = omega (arith, h.filled, longer);
    drawn = λ i l. Among-append (s.samp i) seen (lat ∷ []) (h.drawn i l);
    complete = λ fits i l. absurd (omega (arith, h.filled, longer));
  }

  pub IsReservoir-record_latency :
      (rng : ℕ) → IsReservoir (seen ++ (lat ∷ [])) (record_latency lat (rng, s)).1
  unfolding record_latency
  IsReservoir-record_latency rng = elim (Bool-cases (ltb s.n_samp max_samples)) [
    | inl e ↦ rw e (IsReservoir-pushed (ground arith))
    | inr e ↦ rw e (elim (Bool-cases (ltb (lcg 1 rng % (s.n_seen + 1)) max_samples)) [
      | inl f ↦ rw f (IsReservoir-replaced (lcg 1 rng % (s.n_seen + 1)) (ground arith))
      | inr f ↦ rw f (IsReservoir-passed (ground arith))
    ])
  ]

IsReservoir-record_all :
    (ops : List Timed) (seen : List ℕ) (s : PStats)
    → IsReservoir seen s
    → IsReservoir (seen ++ seen_by ops) (record_all ops s)
unfolding record_all
IsReservoir-record_all [] seen s h =
    subst (λ (l : List ℕ). IsReservoir l s) (sym (append-nil seen)) h
IsReservoir-record_all ((rng, lat) ∷ ops) seen s h =
    let t = (record_latency lat (rng, s)).1 in
    subst (λ (l : List ℕ). IsReservoir l (record_all ops t))
      (append_assoc seen (lat ∷ []) (seen_by ops))
      (IsReservoir-record_all ops (seen ++ (lat ∷ [])) t
        (IsReservoir-record_latency seen lat s h rng))

-- The reservoir of a phase, after any timed operations, holds as many latencies as were seen, and
-- MAX_SAMPLES at most. Each of its slots holds one of them, and until it is full it holds all of
-- them, in their order.
pub record_all-IsReservoir :
    (ops : List Timed) → IsReservoir (seen_by ops) (record_all ops no_stats)
record_all-IsReservoir ops = IsReservoir-record_all ops [] no_stats (record {
  counted = refl;
  filled = omega arith;
  drawn = λ i l. absurd (omega arith);
  complete = λ f i l. absurd (omega arith);
})
