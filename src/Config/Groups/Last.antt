-- ===== src/Config/Groups/Last.antt =====
-- The group of a program (supervice/config.py, `parse_config`, the sections of groups).
use supervice.Prelude.{
  ◌≡◌, refl, sym, ap, ◌∙◌, Bool, true, false, ◌&&◌, Option, none, some, List, [], ◌∷◌, Text, codes,
  drop, if◌then◌else◌, map, Bool-cases, inl, inr,
}
use supervice.Config.Parse.Inversion.{>>=-eq-ok, ok-injective}
use supervice.Config.Groups.{
  Section, program_names, set_group, set_groups, assign_known, assign_group, read_group,
  read_groups, group_prefix,
}
use supervice.Config.Parse.{ok, get_or}
use supervice.Core.Instances.{is_prefix}
use supervice.Core.Reload.{mem}
use supervice.Models.{ProgramConfig}

-- Whether a section is a group's that lists the program.
unfoldable pub lists : Text → Section → Bool
unfolding mem is_prefix program_names get_or
lists name s =
    is_prefix group_prefix s.title
    && mem name (program_names (get_or s.options (codes "programs") []))

or_first : Option Text → Bool → Text → Option Text
or_first (some g) b title = some g
or_first none true title = some (drop 6 title)
or_first none false title = none

-- The group that the last section that lists the program is of.
unfoldable pub last_group : List Section → Text → Option Text
unfolding or_first lists
last_group [] name = none
last_group (s ∷ ss) name = or_first (last_group ss name) (lists name s) s.title

unfoldable pub with_group : Option Text → ProgramConfig → ProgramConfig
with_group none c = c
with_group (some g) c = record c { group = some g }

in_groups : List Section → ProgramConfig → ProgramConfig
unfolding with_group last_group
in_groups ss c = with_group (last_group ss c.name) c

once : Section → ProgramConfig → ProgramConfig
unfolding set_group lists
once s c = if lists c.name s then record c { group = some (drop 6 s.title) } else c

set_groups-once :
    (s : Section) (cs : List ProgramConfig)
    → is_prefix group_prefix s.title ≡ true
    → set_groups (drop 6 s.title) (program_names (get_or s.options (codes "programs") [])) cs
      ≡ map (once s) cs
unfolding set_groups once lists
set_groups-once s [] h = refl
set_groups-once s (c ∷ cs) h = rw (h, set_groups-once s cs h) refl

once-unlisted :
    (s : Section) (cs : List ProgramConfig)
    → ((c : ProgramConfig) → lists c.name s ≡ false)
    → cs ≡ map (once s) cs
unfolding once
once-unlisted s [] h = refl
once-unlisted s (c ∷ cs) h = rw (h c, sym (once-unlisted s cs h)) refl

known-once :
    (s : Section) (names unknown : List Text) (cs ds : List ProgramConfig)
    → is_prefix group_prefix s.title ≡ true
    → program_names (get_or s.options (codes "programs") []) ≡ names
    → assign_known (drop 6 s.title) names unknown cs ≡ ok ds
    → ds ≡ map (once s) cs
unfolding assign_known
known-once s names [] cs ds h e k =
    sym (ok-injective k)
    ∙ ap (λ (ns : List Text). set_groups (drop 6 s.title) ns cs) (sym e)
    ∙ set_groups-once s cs h
known-once s names (n ∷ ns) cs ds h e k = cc

assign_group-once :
    (s : Section) (value : Text) (cs ds : List ProgramConfig)
    → is_prefix group_prefix s.title ≡ true
    → get_or s.options (codes "programs") [] ≡ value
    → assign_group (drop 6 s.title) value cs ≡ ok ds
    → ds ≡ map (once s) cs
unfolding assign_group
assign_group-once s [] cs ds h e k =
    sym (ok-injective k)
    ∙ once-unlisted s cs (λ c. unfold lists program_names mem in rw (h, e) refl)
assign_group-once s (c ∷ value) cs ds h e k = known-once s _ _ cs ds h (ap program_names e) k

read_group-once :
    (b : Bool) (s : Section) (cs ds : List ProgramConfig)
    → is_prefix group_prefix s.title ≡ b
    → read_group b s cs ≡ ok ds
    → ds ≡ map (once s) cs
unfolding read_group
read_group-once false s cs ds h k =
    sym (ok-injective k) ∙ once-unlisted s cs (λ c. unfold lists in rw h refl)
read_group-once true s cs ds h k =
    assign_group-once s (get_or s.options (codes "programs") []) cs ds h refl k

with_group-by :
    (b : Bool) (o : Option Text) (title : Text) (c : ProgramConfig)
    → with_group o (if b then record c { group = some (drop 6 title) } else c)
      ≡ with_group (or_first o b title) c
unfolding with_group or_first
with_group-by true none title c = refl
with_group-by false none title c = refl
with_group-by true (some g) title c = refl
with_group-by false (some g) title c = refl

name-once : (s : Section) (c : ProgramConfig) → (once s c).name ≡ c.name
unfolding once
name-once s c = elim (Bool-cases (lists c.name s)) [ inl e ↦ rw e refl | inr e ↦ rw e refl ]

in_groups-once :
    (s : Section) (ss : List Section) (c : ProgramConfig)
    → in_groups ss (once s c) ≡ in_groups (s ∷ ss) c
unfolding in_groups last_group once
in_groups-once s ss c =
    ap (λ (n : Text). with_group (last_group ss n) (once s c)) (name-once s c)
    ∙ with_group-by (lists c.name s) (last_group ss c.name) s.title c

map-once :
    (s : Section) (ss : List Section) (cs : List ProgramConfig)
    → map (in_groups ss) (map (once s) cs) ≡ map (in_groups (s ∷ ss)) cs
map-once s ss [] = refl
map-once s ss (c ∷ cs) = rw (in_groups-once s ss c, map-once s ss cs) refl

map-in_groups_nil : (cs : List ProgramConfig) → cs ≡ map (in_groups []) cs
unfolding in_groups last_group with_group
map-in_groups_nil [] = refl
map-in_groups_nil (c ∷ cs) = rw (sym (map-in_groups_nil cs)) refl

-- When the sections of groups are read, each program is put in the group of the last section that
-- lists it, and keeps the group it had if no section does; nothing else of a program changes, nor
-- their order.
pub read_groups-last :
    (ss : List Section) (cs ds : List ProgramConfig)
    → read_groups ss cs ≡ ok ds
    → ds ≡ map (λ c. with_group (last_group ss c.name) c) cs
unfolding read_groups in_groups
read_groups-last [] cs ds h = sym (ok-injective h) ∙ map-in_groups_nil cs
read_groups-last (s ∷ ss) cs ds h =
    let (named, g, k) = >>=-eq-ok (read_group (is_prefix group_prefix s.title) s cs) _ h in
    let read = read_group-once (is_prefix group_prefix s.title) s cs named refl g in
    read_groups-last ss named ds k ∙ ap (map (in_groups ss)) read ∙ map-once s ss cs
