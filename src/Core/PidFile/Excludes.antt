-- ===== src/Core/PidFile/Excludes.antt =====
-- Which daemons can hold the lock at the same time (supervice/core.py).
use supervice.Core.PidFile.Locks.{held, kept, IsValid, unequal, Reach-IsValid}
use supervice.Core.PidFile.{
  Phase, idle, refused, unlocked, judged, gone, opened, locked, truncated, holding, reading,
  Daemons, Reach,
}
use supervice.Prelude.{
  ℕ, zero, suc, ◌≡◌, ◌<◌, refl, sym, ap, ◌∙◌, ◌≢◌, false, some, ◌==◌, arith, Bool-cases, ◌⊎◌, inl,
  inr,
}

held-kept : (p : Phase) (i : ℕ) → held p ≡ some i → kept p ≡ some i
unfolding held kept
held-kept (locked j) i h = h
held-kept (truncated j) i h = h
held-kept (holding j) i h = h
held-kept (opened j) i h = cc
held-kept (reading j) i h = cc
held-kept idle i h = cc
held-kept refused i h = cc
held-kept unlocked i h = cc
held-kept judged i h = cc
held-kept gone i h = cc

not_calm : {n : ℕ} → (n ≡ 0 → ⊥) → 0 < n
not_calm {n = zero} h = absurd (h refl)
not_calm {n = suc n} h = omega arith

same_inode :
    {w : Daemons} (d e i : ℕ)
    → IsValid w
    → held (w.phase d) ≡ some i
    → held (w.phase e) ≡ some i
    → (e == d) ≡ false
    → ⊥
same_inode d e i v h k = unequal (sym (v.owned d i h) ∙ v.owned e i k)

same_path :
    (w : Daemons) (d e i j : ℕ)
    → IsValid w
    → held (w.phase d) ≡ some i
    → held (w.phase e) ≡ some j
    → (j == i) ≡ false
    → w.removals ≡ 0
    → ⊥
same_path w d e i j v h k apart calm =
    unequal
      (sym (v.named calm d i (held-kept (w.phase d) i h))
        ∙ v.named calm e j (held-kept (w.phase e) j k))
      apart

-- Two daemons with the same pid file, whatever the order of their system calls and whichever of them
-- are killed: they never hold the lock on the same inode, and as long as no daemon has removed the
-- file, they do not hold it on different ones.
pub Reach-Excludes :
    (w : Daemons) (d e i j : ℕ)
    → Reach w
    → held (w.phase d) ≡ some i
    → held (w.phase e) ≡ some j
    → (d ≡ e) ⊎ ((i ≢ j) × (0 < w.removals))
Reach-Excludes w d e i j r h k =
    let v = Reach-IsValid r in
    elim (Bool-cases (e == d)) [
      | inl same ↦ inl (ground arith)
      | inr other ↦ inr (
        (λ q. same_inode d e i v h (k ∙ ap some (sym q)) other),
        elim (Bool-cases (j == i)) [
          | inl q ↦ absurd (same_inode d e i v h (k ∙ ap some (ground arith)) other)
          | inr apart ↦ not_calm (same_path w d e i j v h k apart)
        ],
      )
    ]
