-- ===== src/TaskSet/Cancelling.antt =====
-- The loop of `_task_lost` that cancels every task which is not launched: the counters move with
-- the flags.
use dpark.Common.{
  ℕ, suc, ◌+◌, ◌≡◌, refl, ap, Bool, true, false, List, [], ◌∷◌, pos, inc, length, count_true, arith,
  ok, >>=-eq-ok, not, ◌||◌, if◌then◌else◌,
}
use dpark.Common.Flags.{Covers}
use dpark.TaskSet.{TaskCounter}
use dpark.TaskSet.Status.{cancel_unlaunched}

-- What the cancelling loop does to flags and counters.
pub record Cancelled (ls fs ls' fs' : List Bool) (c c' : TaskCounter) : Type 0 where
  pub launched_len : length ls' ≡ length ls
  pub finished_len : length fs' ≡ length fs
  pub n : c'.n ≡ c.n
  pub launched :
      (a : ℕ) → c.launched ≡ pos (count_true ls + a) → c'.launched ≡ pos (count_true ls' + a)
  pub finished :
      (a : ℕ) → c.finished ≡ pos (count_true fs + a) → c'.finished ≡ pos (count_true fs' + a)
  pub covered : Covers ls' fs'

cancel_one :
    (l f : Bool) (ls fs ls₁ fs₁ : List Bool) (c c₂ : TaskCounter)
    → (not f || l) ≡ true
    → Cancelled ls fs ls₁ fs₁
        (if l then c else record c { launched = inc c.launched; finished = inc c.finished })
        c₂
    → Cancelled (l ∷ ls) (f ∷ fs) (true ∷ ls₁) ((if l then f else true) ∷ fs₁) c c₂
cancel_one true true ls fs ls₁ fs₁ c c₂ cov r = record {
  launched_len = ap suc r.launched_len;
  finished_len = ap suc r.finished_len;
  n = r.n;
  launched = λ a e. ground (arith, r.launched (suc a));
  finished = λ a e. ground (arith, r.finished (suc a));
  covered = (refl, r.covered);
}
cancel_one true false ls fs ls₁ fs₁ c c₂ cov r = record {
  launched_len = ap suc r.launched_len;
  finished_len = ap suc r.finished_len;
  n = r.n;
  launched = λ a e. ground (arith, r.launched (suc a));
  finished = λ a e. ground (arith, r.finished a);
  covered = (refl, r.covered);
}
cancel_one false true ls fs ls₁ fs₁ c c₂ cov r = cc
cancel_one false false ls fs ls₁ fs₁ c c₂ cov r = record {
  launched_len = ap suc r.launched_len;
  finished_len = ap suc r.finished_len;
  n = r.n;
  launched = λ a e. ground (arith, r.launched (suc a));
  finished = λ a e. ground (arith, r.finished (suc a));
  covered = (refl, r.covered);
}

pub cancel-Cancelled :
    (ls fs ls' fs' : List Bool) (c c' : TaskCounter)
    → length ls ≡ length fs
    → Covers ls fs
    → cancel_unlaunched ls fs c ≡ ok (ls', fs', c')
    → Cancelled ls fs ls' fs' c c'
unfolding cancel_unlaunched
cancel-Cancelled ls [] ls' fs' c c' n cov h =
    let p : (ls' ≡ ls) × (fs' ≡ []) × (c' ≡ c) = ground arith in
    rw (p.0, p.1, p.2)
      (record {
        launched_len = refl;
        finished_len = refl;
        n = refl;
        launched = λ a e. e;
        finished = λ a e. e;
        covered = cov;
      })
cancel-Cancelled [] (f ∷ fs) ls' fs' c c' n cov h = cc
cancel-Cancelled (l ∷ ls) (f ∷ fs) ls' fs' c c' n cov h =
    let c₁ : TaskCounter =
      if l then c else record c { launched = inc c.launched; finished = inc c.finished } in
    let ((ls₁, fs₁, c₂), e, h') = >>=-eq-ok (cancel_unlaunched ls fs c₁) _ h in
    let r = cancel-Cancelled ls fs ls₁ fs₁ c₁ c₂ (omega arith) cov.1 e in
    let p : (ls' ≡ true ∷ ls₁) × (fs' ≡ (if l then f else true) ∷ fs₁) × (c' ≡ c₂) = ground arith in
    rw (p.0, p.1, p.2) (cancel_one l f ls fs ls₁ fs₁ c c₂ cov.0 r)
