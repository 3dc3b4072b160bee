-- ===== src/Unmap/Release.antt =====
-- The exits of `__unmap_and_move` (arm64_files/migrate.c): the locks, the anon_vma and the record.
use memory_migration_cs.Base.{
  Bool, true, false, ◌||◌, not, Option, none, some, [], ◌∷◌, ◌≡◌, ◌≢◌, inl, inr, refl, Rc, success,
  fail, eagain, arith, Option-cases, is_success, is_eagain, ◌∙◌, sym, if◌then◌else◌,
}
use memory_migration_cs.Timing.Ring.{Commit}
use memory_migration_cs.Folio.Rocm.{rocm_swap_ptes}
use memory_migration_cs.Unmap.{
  Kernel, Run, out, commit, out_unlock, out_unlock_both, rocm_path, add_lru, rocm_copied, stamp,
  stamp_stage, set_src_locked,
}

-- The end of a call that has taken the lock of the old folio: the lock and the anon_vma are released,
-- and there is one record if the call need not be retried, with the return value, and none otherwise.
pub record IsEnded (s : Run) : Type 0 where
  pub src_unlocked : s.mig.src.locked ≡ false
  pub anon_put : s.anon_vma ≡ false
  pub not_recorded : s.rc ≡ fail eagain → s.commits ≡ []
  pub recorded : s.rc ≢ fail eagain → (c : Commit) × (s.commits ≡ c ∷ []) × (c.body.result ≡ s.rc)

abbrev pub Ends : Option Run → Type 0
Ends none = Unit
Ends (some s) = IsEnded s

-- What is not to be retried is recorded.
is_recorded : (rc : Rc) → rc ≢ fail eagain → (is_success rc || not (is_eagain rc)) ≡ true
is_recorded success h = refl
is_recorded (fail eagain) h = absurd (h refl)
is_recorded (fail e) h = refl

pub Ends-if : (b : Bool) (x y : Option Run) → Ends x → Ends y → Ends (if b then x else y)
Ends-if true x y h g = h
Ends-if false x y h g = g

module _ (k : Kernel) where
  rc-out : (s : Run) → (out k s).rc ≡ s.rc
  unfolding out
  rc-out s = ground arith

  pub fields-out :
      (s : Run)
      → ((out k s).mig.src.locked ≡ s.mig.src.locked)
        × ((out k s).anon_vma ≡ s.anon_vma)
        × ((out k s).commits ≡ s.commits)
  unfolding out
  fields-out s = ground arith

  fields-commit :
      (s : Run)
      → ((commit k s).mig ≡ s.mig) × ((commit k s).anon_vma ≡ s.anon_vma) × ((commit k s).rc ≡ s.rc)
  unfolding commit
  fields-commit s = ground arith

  commits-commit :
      (s : Run)
      → s.commits ≡ []
      → s.rec.result ≡ s.rc
      → (s.rc ≡ fail eagain → (commit k s).commits ≡ [])
        × (s.rc ≢ fail eagain
            → (c : Commit) × ((commit k s).commits ≡ c ∷ []) × (c.body.result ≡ s.rc))
  unfolding commit
  commits-commit s h r = (
    λ e. ground arith,
    λ ne.
        let kept : (is_success s.rc || not (is_eagain s.rc)) ≡ true = is_recorded s.rc ne in
        (record { on_cpu = k.cpu; by_pid = k.pid; body = s.rec }, rw (kept, h, commit), r),
  )

  IsEnded-out-commit :
      (s : Run)
      → s.commits ≡ []
      → s.rec.result ≡ s.rc
      → s.mig.src.locked ≡ false
      → s.anon_vma ≡ false
      → IsEnded (out k (commit k s))
  IsEnded-out-commit s h r l a =
      let cs = commits-commit s h r in
      let fs = fields-commit s in
      let os = fields-out (commit k s) in
      let rs = rc-out (commit k s) in
      record {
        src_unlocked = os.0 ∙ (rw (fs.0) l);
        anon_put = os.1 ∙ fs.1 ∙ a;
        not_recorded = λ e. os.2 ∙ cs.0 (sym (rs ∙ fs.2) ∙ e);
        recorded = λ ne.
            let (c, one, res) = cs.1 (λ e. ne (rs ∙ fs.2 ∙ e)) in
            (c, os.2 ∙ one, res ∙ sym (rs ∙ fs.2));
      }

  pub IsEnded-out_unlock : (s : Run) → s.commits ≡ [] → IsEnded (out_unlock k s)
  unfolding out_unlock
  IsEnded-out_unlock s h =
      IsEnded-out-commit
        (stamp k (λ t r. record r { result = s.rc; total_end_ns = t })
          (stamp_stage k (λ t g. record g { unlock_end_ns = t })
            (record s { anon_vma = false; mig = set_src_locked false s.mig })))
        h refl refl refl

  pub rc-out_unlock : (s : Run) → (out_unlock k s).rc ≡ s.rc
  unfolding out_unlock
  rc-out_unlock s =
      let ended =
        stamp k (λ t r. record r { result = s.rc; total_end_ns = t })
          (stamp_stage k (λ t g. record g { unlock_end_ns = t })
            (record s { anon_vma = false; mig = set_src_locked false s.mig })) in
      rc-out (commit k ended) ∙ (fields-commit ended).2

  pub IsEnded-out_unlock_both : (s : Run) → s.commits ≡ [] → IsEnded (out_unlock_both k s)
  unfolding out_unlock_both
  IsEnded-out_unlock_both s h = IsEnded-out_unlock _ h

  pub commits-add_lru : (s : Run) → s.commits ≡ [] → (add_lru k s).commits ≡ []
  commits-add_lru s h = ground arith

  pub IsEnded-rocm_path : (s : Run) → s.commits ≡ [] → IsEnded (rocm_path k s)
  unfolding rocm_path
  IsEnded-rocm_path s h = elim (Option-cases (rocm_swap_ptes (rocm_copied k s).mig).0) [
    | inl e ↦ rw (e, rocm_path) (IsEnded-out_unlock_both _ h)
    | inr (n, e) ↦ rw (e, rocm_path) (IsEnded-out_unlock_both _ h)
  ]
