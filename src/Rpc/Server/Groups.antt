-- ===== src/Rpc/Server/Groups.antt =====
-- What the reply to a group's command says of its members (supervice/rpc.py, `process_request`).
use mathlib.Core.Path.{subst}
use supervice.Prelude.{
  ◌≡◌, ◌≢◌, ◌⊎◌, inl, inr, refl, sym, true, false, Option, none, some, List, [], ◌∷◌, Text, length,
  arith,
}
use supervice.Rpc.Replies.{
  Reply, already_running, started, stopped, restarted, start_failed, not_running, not_stopped,
  process_not_found, status,
}
use supervice.Rpc.Server.{
  is_ok, with_name, failed_names, GroupReply, group_done, group_failed, group_error, group_reply_of,
  group_reply,
}

-- Whether a member of a group was started or stopped, or runs already; `none` is a member that raised.
abbrev pub IsDone : Option Reply → Type 0
IsDone none = ⊥
IsDone (some (already_running n)) = Unit {0}
IsDone (some (started n)) = Unit {0}
IsDone (some (stopped n)) = Unit {0}
IsDone (some (restarted n)) = Unit {0}
IsDone (some (start_failed n)) = ⊥
IsDone (some (not_running n s)) = ⊥
IsDone (some (not_stopped n s)) = ⊥
IsDone (some process_not_found) = ⊥

-- The members that did not come to that: `ns` are their names, in the order of the group.
pub data Failing : List Text → List (Option Reply) → List Text → Type 0 where
  none_failing : Failing [] [] []
  passes :
      {n : Text} {r : Option Reply} {names : List Text} {rs : List (Option Reply)} {ns : List Text}
      → IsDone r
      → Failing names rs ns
      → Failing (n ∷ names) (r ∷ rs) ns
  fails :
      {n : Text} {r : Option Reply} {names : List Text} {rs : List (Option Reply)} {ns : List Text}
      → ¬ IsDone r
      → Failing names rs ns
      → Failing (n ∷ names) (r ∷ rs) (n ∷ ns)

-- What the reply to a group's command says of its members.
abbrev pub Reports : GroupReply → List Text → List (Option Reply) → Type 0
Reports group_done names rs = Failing names rs []
Reports (group_failed ns) names rs = (ns ≢ []) × Failing names rs ns
Reports group_error names rs = ⊥

is_ok-IsDone : (r : Option Reply) → (is_ok r ≡ true) × IsDone r ⊎ (is_ok r ≡ false) × ¬ IsDone r
unfolding is_ok status
is_ok-IsDone none = inr (refl, λ h. h)
is_ok-IsDone (some (already_running n)) = inl (refl, tt)
is_ok-IsDone (some (started n)) = inl (refl, tt)
is_ok-IsDone (some (stopped n)) = inl (refl, tt)
is_ok-IsDone (some (restarted n)) = inl (refl, tt)
is_ok-IsDone (some (start_failed n)) = inr (refl, λ h. h)
is_ok-IsDone (some (not_running n s)) = inr (refl, λ h. h)
is_ok-IsDone (some (not_stopped n s)) = inr (refl, λ h. h)
is_ok-IsDone (some process_not_found) = inr (refl, λ h. h)

failed_names-Failing :
    (names : List Text) (results : List (Option Reply))
    → length names ≡ length results
    → (ns : List Text) × (failed_names names results ≡ some ns) × Failing names results ns
unfolding failed_names with_name
failed_names-Failing [] [] h = ([], refl, none_failing)
failed_names-Failing [] (r ∷ rs) h = absurd (omega arith)
failed_names-Failing (n ∷ names) [] h = absurd (omega arith)
failed_names-Failing (n ∷ names) (r ∷ rs) h =
    let (ns, e, f) = failed_names-Failing names rs (omega arith) in
    elim (is_ok-IsDone r) [
      | inl (ok, done) ↦ (ns, rw (ok, e) refl, passes done f)
      | inr (bad, undone) ↦ (n ∷ ns, rw (bad, e) refl, fails undone f)
    ]

reply_of-Reports :
    (ns names : List Text) (rs : List (Option Reply))
    → Failing names rs ns
    → Reports (group_reply_of (some ns)) names rs
unfolding group_reply_of
reply_of-Reports [] names rs f = f
reply_of-Reports (n ∷ ns) names rs f = (λ e. cc, f)

-- The reply to a group's command reports success exactly if every member was started or stopped, or
-- runs already, and else it names exactly the members that were not or that raised, in the order of
-- the group.
pub group_reply-Reports :
    (names : List Text) (results : List (Option Reply))
    → length names ≡ length results
    → Reports (group_reply names results) names results
unfolding group_reply
group_reply-Reports names results h =
    let (ns, e, f) = failed_names-Failing names results h in
    subst (λ (o : Option (List Text)). Reports (group_reply_of o) names results) (sym e)
      (reply_of-Reports ns names results f)
