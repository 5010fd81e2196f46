-- ===== src/Core/Reload/Groups.antt =====
-- What the groups hold (supervice/core.py, `_rebuild_groups`).
use mathlib.Core.Path.{subst}
use supervice.Prelude.Dict.{Dict, lookup, assign, lookup-assign}
use supervice.Prelude.{
  ◌≡◌, refl, sym, ap, ◌∙◌, Bool, true, false, ◌&&◌, ◌||◌, List, [], ◌∷◌, ◌++◌, Text, text_eq,
  text_eq_iff, if◌then◌else◌, arith,
}
use supervice.Core.Instances.{instance_names}
use supervice.Core.Reload.Stages.{distinct}
use supervice.Core.Reload.{mem, add_members, members_of, group_name, groups_from, rebuild_groups}
use supervice.Models.{ProgramConfig}

mem-append : (k : Text) (xs ys : List Text) → mem k (xs ++ ys) ≡ (mem k xs || mem k ys)
unfolding mem
mem-append k [] ys = refl
mem-append k (x ∷ xs) ys = ground (arith, mem-append k xs ys)

mem-add_members :
    (k : Text) (ns ms : List Text) → mem k (add_members ns ms) ≡ (mem k ms || mem k ns)
unfolding mem add_members
mem-add_members k [] ms = ground arith
mem-add_members k (n ∷ ns) ms = ground (
  arith,
  mem-add_members k ns ms,
  mem-add_members k ns (ms ++ n ∷ []),
  mem-append k ms (n ∷ []),
  text_eq_iff n k,
)

distinct-append :
    (n : Text) (ms : List Text)
    → mem n ms ≡ false
    → distinct ms ≡ true
    → distinct (ms ++ n ∷ []) ≡ true
unfolding distinct mem
distinct-append n [] h d = refl
distinct-append n (m ∷ ms) h d =
    ground (arith, distinct-append n ms, mem-append m ms (n ∷ []), text_eq_iff n m, text_eq_iff m n)

distinct-add_members :
    (ns ms : List Text) → distinct ms ≡ true → distinct (add_members ns ms) ≡ true
unfolding add_members
distinct-add_members [] ms d = d
distinct-add_members (n ∷ ns) ms d = ground (
  arith,
  distinct-add_members ns ms d,
  distinct-add_members ns (ms ++ n ∷ []),
  distinct-append n ms,
)

-- Whether the name is an instance's of a program in the group.
unfoldable pub belongs : Text → Text → List ProgramConfig → Bool
belongs n g [] = false
belongs n g (prog ∷ progs) =
    (text_eq (group_name prog) g && mem n (instance_names prog)) || belongs n g progs

unfoldable pub members : Text → Dict (List Text) → List Text
unfolding lookup members_of
members g groups = members_of (lookup g groups)

AreDistinct : Dict (List Text) → Type 0
unfolding members
AreDistinct groups = (g : Text) → distinct (members g groups) ≡ true

members-assign :
    (g h : Text) (ms : List Text) (groups : Dict (List Text))
    → members g (assign h ms groups) ≡ (if text_eq h g then ms else members g groups)
unfolding members members_of
members-assign g h ms groups = ground (arith, lookup-assign h g ms groups)

regroup : Text → List Text → Dict (List Text) → Dict (List Text)
unfolding members
regroup h ns groups = assign h (add_members ns (members h groups)) groups

mem-regroup :
    (n g h : Text) (ns : List Text) (groups : Dict (List Text))
    → mem n (members g (regroup h ns groups))
      ≡ (mem n (members g groups) || (text_eq h g && mem n ns))
unfolding regroup
mem-regroup n g h ns groups = ground (
  arith,
  members-assign g h (add_members ns (members h groups)) groups,
  mem-add_members n ns (members h groups),
  text_eq_iff h g,
)

or_assoc : (a b c : Bool) → ((a || b) || c) ≡ (a || (b || c))
or_assoc true b c = refl
or_assoc false b c = refl

groups_from-step :
    (prog : ProgramConfig) (progs : List ProgramConfig) (groups : Dict (List Text))
    → groups_from (prog ∷ progs) groups
      ≡ groups_from progs (regroup (group_name prog) (instance_names prog) groups)
unfolding groups_from regroup members
groups_from-step prog progs groups = refl

groups_from-none : (groups : Dict (List Text)) → groups_from [] groups ≡ groups
unfolding groups_from
groups_from-none groups = refl

mem-groups_from :
    (n g : Text) (progs : List ProgramConfig) (groups : Dict (List Text))
    → mem n (members g (groups_from progs groups)) ≡ (mem n (members g groups) || belongs n g progs)
unfolding belongs
mem-groups_from n g [] groups = ground (arith, groups_from-none groups)
mem-groups_from n g (prog ∷ progs) groups =
    let here = text_eq (group_name prog) g && mem n (instance_names prog) in
    ap (λ (d : Dict (List Text)). mem n (members g d)) (groups_from-step prog progs groups)
    ∙ mem-groups_from n g progs (regroup (group_name prog) (instance_names prog) groups)
    ∙ ap (λ (b : Bool). b || belongs n g progs)
        (mem-regroup n g (group_name prog) (instance_names prog) groups)
    ∙ or_assoc (mem n (members g groups)) here (belongs n g progs)

regroup-AreDistinct :
    (h : Text) (ns : List Text) (groups : Dict (List Text))
    → AreDistinct groups
    → AreDistinct (regroup h ns groups)
unfolding regroup AreDistinct
regroup-AreDistinct h ns groups d g = ground (
  arith,
  members-assign g h (add_members ns (members h groups)) groups,
  distinct-add_members ns (members h groups) (d h),
  d g,
)

groups_from-AreDistinct :
    (progs : List ProgramConfig) (groups : Dict (List Text))
    → AreDistinct groups
    → AreDistinct (groups_from progs groups)
groups_from-AreDistinct [] groups d = subst AreDistinct (sym (groups_from-none groups)) d
groups_from-AreDistinct (prog ∷ progs) groups d =
    subst AreDistinct (sym (groups_from-step prog progs groups)) (
      groups_from-AreDistinct progs (regroup (group_name prog) (instance_names prog) groups)
        (regroup-AreDistinct (group_name prog) (instance_names prog) groups d))

-- A group that was rebuilt has exactly the instances of the programs in it for members, each once;
-- a program without a group is a group of its own.
pub rebuild_groups-belongs :
    (programs : List ProgramConfig) (g n : Text)
    → (mem n (members g (rebuild_groups programs)) ≡ belongs n g programs)
      × (distinct (members g (rebuild_groups programs)) ≡ true)
unfolding rebuild_groups AreDistinct
rebuild_groups-belongs programs g n = (
  unfold members in mem-groups_from n g programs [],
  groups_from-AreDistinct programs [] (λ h. unfold members distinct in refl) g,
)
