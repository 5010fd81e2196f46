-- ===== src/Process/System/Guarantee.antt =====
-- What every stretch of every task guarantees holds from the first state of a process to any that is
-- reached, under every interleaving.
use supervice.Prelude.{List, [], ◌∷◌, ◌++◌, ℕ, Option}
use supervice.Models.{ProgramConfig}
use supervice.Process.Requests.{start}
use supervice.Process.Respects.{Frame}
use supervice.Process.Spawn.{Host}
use supervice.Process.State.{Process, new, update_config}
use supervice.Process.System.{
  Method, body, Pending, System, absorb, initial, Step, begin, resumed, started, configured, world,
  Reach, at_first, then,
}
use supervice.Task.Guarantee.{Guarantees, Stretches, IsGuarantee}
use supervice.Task.Waits.{Answer}
use supervice.Task.{Run, done, raised, suspended, out_of_rounds, Reply}

abbrev All : (Pending → Type 0) → List Pending → Type 0
All P [] = Unit
All P (c ∷ cs) = P c × All P cs

All-append : (P : Pending → Type 0) (cs ds : List Pending) → All P cs → All P ds → All P (cs ++ ds)
All-append P [] ds h k = k
All-append P (c ∷ cs) ds h k = (h.0, All-append P cs ds h.1 k)

All-left : (P : Pending → Type 0) (cs ds : List Pending) → All P (cs ++ ds) → All P cs
All-left P [] ds h = tt
All-left P (c ∷ cs) ds h = (h.0, All-left P cs ds h.1)

All-right : (P : Pending → Type 0) (cs ds : List Pending) → All P (cs ++ ds) → All P ds
All-right P [] ds h = h
All-right P (c ∷ cs) ds h = All-right P cs ds h.1

-- Whatever it is resumed with, a suspended task keeps to `G`.
abbrev IsReady : (Process → Process → Type 0) → Pending → Type 0
IsReady G c = (r : Reply (Answer c.waits_for)) (p : Process) → Stretches G p (c.resume r p)

-- From `p` on the process has kept to `G`, and every suspended task goes on so.
record IsKept (G : Process → Process → Type 0) (p : Process) (s : System) : Type 0 where
  so_far : G p s.process
  ready : All (IsReady G) s.pending

-- All that can happen to a process keeps to `G`.
pub record IsKeptByAll (host : Host) (G : Process → Process → Type 0) : Type 0 where
  pub guarantee : IsGuarantee G
  pub bodies : (me : Option ℕ) (m : Method) → Guarantees G (body host me m)
  pub starts : (p : Process) → G p (start p)
  pub configures : (config : ProgramConfig) (p : Process) → G p (update_config config p)
  pub frames : (p q : Process) → Frame p q → G p q

module _ (host : Host) (G : Process → Process → Type 0) (k : IsKeptByAll host G) where
  absorb-IsKept :
      (p q : Process) (r : Run Process (Unit {0})) (ps : List Pending)
      → G p q
      → Stretches G q r
      → All (IsReady G) ps
      → IsKept G p (absorb r ps)
  unfolding absorb
  absorb-IsKept p q (done u t) ps h l a = record { so_far = k.guarantee.trans p q t h l; ready = a }
  absorb-IsKept p q (raised e t) ps h l a = record {
    so_far = k.guarantee.trans p q t h l;
    ready = a;
  }
  absorb-IsKept p q (suspended w t c) ps h l a = record {
    so_far = k.guarantee.trans p q t h l.0;
    ready = (l.1, a);
  }
  absorb-IsKept p q (out_of_rounds t) ps h l a = record {
    so_far = k.guarantee.trans p q t h l;
    ready = a;
  }

  after :
      (p q : Process) (s : System)
      → IsKept G p s
      → G s.process q
      → IsKept G p (record s { process = q })
  after p q s h l = record { so_far = k.guarantee.trans p s.process q h.so_far l; ready = h.ready }

  Step-IsKept : (p : Process) {s t : System} → Step host s t → IsKept G p s → IsKept G p t
  Step-IsKept p {s} (begin me m) h =
      absorb-IsKept p s.process _ s.pending h.so_far ((k.bodies me m).at s.process) h.ready
  Step-IsKept p {s} (resumed before after c r e) h =
      let split : All (IsReady G) (before ++ (c ∷ after)) = rw e at h.ready in
      let from = All-right (IsReady G) before (c ∷ after) split in
      absorb-IsKept p s.process _ (before ++ after) h.so_far (from.0 r s.process)
        (All-append (IsReady G) before after (All-left (IsReady G) before (c ∷ after) split) from.1)
  Step-IsKept p {s} started h = after p (start s.process) s h (k.starts s.process)
  Step-IsKept p {s} (configured config) h =
      after p (update_config config s.process) s h (k.configures config s.process)
  Step-IsKept p {s} (world q f) h = after p q s h (k.frames s.process q f)

  Reach-IsKept :
      (config : ProgramConfig) {s : System} → Reach host config s → IsKept G (new config) s
  unfolding initial
  Reach-IsKept config at_first = record { so_far = k.guarantee.refl_at (new config); ready = tt }
  Reach-IsKept config (then r st) = Step-IsKept (new config) st (Reach-IsKept config r)

  pub Reach-kept :
      (config : ProgramConfig) {s : System} → Reach host config s → G (new config) s.process
  Reach-kept config r = (Reach-IsKept config r).so_far
