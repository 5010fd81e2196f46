-- ===== src/Core/PidFile/Locks.antt =====
-- What is true of the locks whatever the order of the daemons' system calls (supervice/core.py).
use supervice.Core.PidFile.{
  Phase, idle, refused, unlocked, judged, gone, opened, locked, truncated, holding, reading, set_at,
  Daemons, open_at, lock_at, look_at, compare_id, call, advance, unlock, crash, Reach, initially,
  advanced, crashed,
}
use supervice.Prelude.{
  ℕ, ◌≡◌, refl, sym, ap, ◌∙◌, false, Option, none, some, ◌==◌, arith, Bool-cases, ◌⊎◌, inl, inr,
}

-- The inode that a daemon has locked.
unfoldable pub held : Phase → Option ℕ
held (locked i) = some i
held (truncated i) = some i
held (holding i) = some i
held _ = none

-- The inode that a daemon has opened for its lock.
unfoldable pub kept : Phase → Option ℕ
kept (opened i) = some i
kept (locked i) = some i
kept (truncated i) = some i
kept (holding i) = some i
kept _ = none

pub record IsValid (w : Daemons) : Type 0 where
  pub owned : (d i : ℕ) → held (w.phase d) ≡ some i → w.owner i ≡ some d
  pub named : w.removals ≡ 0 → (d i : ℕ) → kept (w.phase d) ≡ some i → w.path ≡ some i

set_at-cases {ℓ} :
    {A : Type ℓ} (d : ℕ) (p : A) (f : ℕ → A) (e : ℕ)
    → ((e ≡ d) × (set_at d p f e ≡ p)) ⊎ (((e == d) ≡ false) × (set_at d p f e ≡ f e))
set_at-cases d p f e = elim (Bool-cases (e == d)) [
  | inl q ↦ inl (ground arith, rw q refl)
  | inr q ↦ inr (q, rw q refl)
]

-- A daemon's step from `w` to `t`, which leaves the locks of the others and the named file alone.
record IsStep (d : ℕ) (p : Phase) (w t : Daemons) : Type 0 where
  phase : t.phase ≡ set_at d p w.phase
  others : (e i : ℕ) → (e == d) ≡ false → w.owner i ≡ some e → t.owner i ≡ some e
  own : (i : ℕ) → held p ≡ some i → t.owner i ≡ some d
  calm : t.removals ≡ 0 → w.removals ≡ 0
  path : t.removals ≡ 0 → (i : ℕ) → w.path ≡ some i → t.path ≡ some i
  own_path : t.removals ≡ 0 → (i : ℕ) → kept p ≡ some i → t.path ≡ some i

IsStep-IsValid : (d : ℕ) (p : Phase) (w t : Daemons) → IsStep d p w t → IsValid w → IsValid t
IsStep-IsValid d p w t s v = record {
  owned = λ e i g. elim (set_at-cases d p w.phase e) [
    | inl (same, q) ↦
        s.own i (sym (ap held (ap (λ (f : ℕ → Phase). f e) s.phase ∙ q)) ∙ g) ∙ ap some (sym same)
    | inr (other, q) ↦
        s.others e i other
          (v.owned e i (sym (ap held (ap (λ (f : ℕ → Phase). f e) s.phase ∙ q)) ∙ g))
  ];
  named = λ r e i g. elim (set_at-cases d p w.phase e) [
    | inl (same, q) ↦ s.own_path r i (sym (ap kept (ap (λ (f : ℕ → Phase). f e) s.phase ∙ q)) ∙ g)
    | inr (other, q) ↦
        s.path r i
          (v.named (s.calm r) e i (sym (ap kept (ap (λ (f : ℕ → Phase). f e) s.phase ∙ q)) ∙ g))
  ];
}

-- A step that changes no lock and no path, to a phase that keeps no inode but one it kept before.
moved :
    (d : ℕ) (p : Phase) (w t : Daemons)
    → t.phase ≡ set_at d p w.phase
    → t.owner ≡ w.owner
    → t.path ≡ w.path
    → t.removals ≡ w.removals
    → ((i : ℕ) → held p ≡ some i → held (w.phase d) ≡ some i)
    → ((i : ℕ) → kept p ≡ some i → kept (w.phase d) ≡ some i)
    → IsValid w
    → IsValid t
moved d p w t e o n r h k v =
    IsStep-IsValid d p w t
      (record {
        phase = e;
        others = λ e i other g. ap (λ (f : ℕ → Option ℕ). f i) o ∙ g;
        own = λ i g. ap (λ (f : ℕ → Option ℕ). f i) o ∙ v.owned d i (h i g);
        calm = λ c. sym r ∙ c;
        path = λ c i g. n ∙ g;
        own_path = λ c i g. n ∙ v.named (sym r ∙ c) d i (k i g);
      })
      v

-- A step to a phase that keeps no inode.
let_go :
    (d : ℕ) (p : Phase) (w : Daemons)
    → held p ≡ none
    → kept p ≡ none
    → IsValid w
    → IsValid (record w { phase = set_at d p w.phase })
let_go d p w h k v = moved d p w _ refl refl refl refl (λ j g. cc) (λ j g. cc) v

open_at-IsValid :
    (d : ℕ) (w : Daemons) (o : Option ℕ) → w.path ≡ o → IsValid w → IsValid (open_at d w o)
unfolding open_at held kept
open_at-IsValid d w (some i) h v =
    IsStep-IsValid d (opened i) w _
      (record {
        phase = refl;
        others = λ e j other g. g;
        own = λ j g. cc;
        calm = λ c. c;
        path = λ c j g. g;
        own_path = λ c j g. h ∙ g;
      })
      v
open_at-IsValid d w none h v =
    IsStep-IsValid d (opened w.new_inode) w _
      (record {
        phase = refl;
        others = λ e j other g. g;
        own = λ j g. cc;
        calm = λ c. c;
        path = λ c j g. cc;
        own_path = λ c j g. g;
      })
      v

lock_at-IsValid :
    (d : ℕ) (w : Daemons) (i : ℕ) (o : Option ℕ)
    → w.phase d ≡ opened i
    → w.owner i ≡ o
    → IsValid w
    → IsValid (lock_at d w i o)
unfolding lock_at held kept
lock_at-IsValid d w i (some other) p h v = let_go d refused w refl refl v
lock_at-IsValid d w i none p h v =
    IsStep-IsValid d (locked i) w _
      (record {
        phase = refl;
        others = λ e j other g. elim (set_at-cases i (some d) w.owner j) [
          | inl (same, q) ↦ cc
          | inr (apart, q) ↦ q ∙ g
        ];
        own = λ j g. elim (set_at-cases i (some d) w.owner j) [
          | inl (same, q) ↦ q
          | inr (apart, q) ↦ ground arith
        ];
        calm = λ c. c;
        path = λ c j g. g;
        own_path = λ c j g. v.named c d j (ap kept p ∙ g);
      })
      v

pub unequal : {d e : ℕ} → some d ≡ some e → (e == d) ≡ false → ⊥
unequal {d = d} {e = e} h other =
    let same : d ≡ e = ap (λ (o : Option ℕ). elim o [ none ↦ d | some n ↦ n ]) h in ground arith

-- Dropping the lock that a daemon holds.
dropped-IsStep :
    (d i : ℕ) (p : Phase) (w : Daemons)
    → held (w.phase d) ≡ some i
    → held p ≡ none
    → kept p ≡ none
    → IsValid w
    → IsStep d p w (record w { owner = set_at i none w.owner; phase = set_at d p w.phase })
dropped-IsStep d i p w h n k v = record {
  phase = refl;
  others = λ e j other g. elim (set_at-cases i none w.owner j) [
    | inl (same, q) ↦
        let o = v.owned d i h in
        let clash : some d ≡ some e = sym o ∙ ap w.owner (sym same) ∙ g in
        absurd (unequal clash other)
    | inr (apart, q) ↦ q ∙ g
  ];
  own = λ j g. cc;
  calm = λ c. c;
  path = λ c j g. g;
  own_path = λ c j g. cc;
}

look_at-IsValid : (d : ℕ) (w : Daemons) (o : Option ℕ) → IsValid w → IsValid (look_at d w o)
unfolding look_at held kept
look_at-IsValid d w none v = let_go d gone w refl refl v
look_at-IsValid d w (some i) v = let_go d (reading i) w refl refl v

compare_id-holds_none :
    (d : ℕ) (o : Option ℕ) → (held (compare_id d o) ≡ none) × (kept (compare_id d o) ≡ none)
unfolding compare_id held kept
compare_id-holds_none d none = (refl, refl)
compare_id-holds_none d (some pid) = elim (Bool-cases (pid == d)) [
  | inl q ↦ rw q (refl, refl)
  | inr q ↦ rw q (refl, refl)
]

call-IsValid : (d : ℕ) (w : Daemons) (p : Phase) → w.phase d ≡ p → IsValid w → IsValid (call d w p)
unfolding call held kept
call-IsValid d w idle h v = open_at-IsValid d w w.path refl v
call-IsValid d w (opened i) h v = lock_at-IsValid d w i (w.owner i) h refl v
call-IsValid d w (locked i) h v =
    moved d (truncated i) w _ refl refl refl refl (λ j g. ap held h ∙ g) (λ j g. ap kept h ∙ g) v
call-IsValid d w (truncated i) h v =
    moved d (holding i) w _ refl refl refl refl (λ j g. ap held h ∙ g) (λ j g. ap kept h ∙ g) v
call-IsValid d w (holding i) h v =
    IsStep-IsValid d unlocked w _ (dropped-IsStep d i unlocked w (ap held h) refl refl v) v
call-IsValid d w unlocked h v = look_at-IsValid d w w.path v
call-IsValid d w (reading j) h v =
    let (n, k) = compare_id-holds_none d (w.contents j) in
    let_go d (compare_id d (w.contents j)) w n k v
call-IsValid d w judged h v =
    IsStep-IsValid d gone w _
      (record {
        phase = refl;
        others = λ e j other g. g;
        own = λ j g. cc;
        calm = λ c. ground arith;
        path = λ c j g. ground arith;
        own_path = λ c j g. cc;
      })
      v
call-IsValid d w refused h v = v
call-IsValid d w gone h v = v

unlock-IsValid :
    (d : ℕ) (w : Daemons) (p : Phase)
    → w.phase d ≡ p
    → IsValid w
    → IsValid (record w { owner = unlock p w.owner; phase = set_at d gone w.phase })
unfolding unlock held kept
unlock-IsValid d w (locked i) h v =
    IsStep-IsValid d gone w _ (dropped-IsStep d i gone w (ap held h) refl refl v) v
unlock-IsValid d w (truncated i) h v =
    IsStep-IsValid d gone w _ (dropped-IsStep d i gone w (ap held h) refl refl v) v
unlock-IsValid d w (holding i) h v =
    IsStep-IsValid d gone w _ (dropped-IsStep d i gone w (ap held h) refl refl v) v
unlock-IsValid d w idle h v = let_go d gone w refl refl v
unlock-IsValid d w refused h v = let_go d gone w refl refl v
unlock-IsValid d w unlocked h v = let_go d gone w refl refl v
unlock-IsValid d w judged h v = let_go d gone w refl refl v
unlock-IsValid d w gone h v = let_go d gone w refl refl v
unlock-IsValid d w (opened i) h v = let_go d gone w refl refl v
unlock-IsValid d w (reading i) h v = let_go d gone w refl refl v

pub Reach-IsValid : {w : Daemons} → Reach w → IsValid w
unfolding advance crash held kept
Reach-IsValid initially = record { owned = λ d i g. cc; named = λ r d i g. cc }
Reach-IsValid (advanced {w = w} d r) = call-IsValid d w (w.phase d) refl (Reach-IsValid r)
Reach-IsValid (crashed {w = w} d r) = unlock-IsValid d w (w.phase d) refl (Reach-IsValid r)
