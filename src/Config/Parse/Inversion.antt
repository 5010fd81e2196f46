-- ===== src/Config/Parse/Inversion.antt =====
-- What a step that succeeded tells of its parts (supervice/config.py).
use supervice.Prelude.Dict.{Dict}
use supervice.Prelude.{◌≡◌, refl, sym, ap, ◌∙◌, Bool, true, false, [], Text, codes}
use supervice.Config.Environment.{parse_env}
use supervice.Config.Parse.{
  ConfigError, Checked, ok, err, ◌>>=◌, guard, getint, get_or, environment_of, read_check,
  read_section, Program, read_program,
}
use supervice.Config.Validation.{CheckSection, ProgramSection}

-- Inversion of a step that succeeded.
pub >>=-eq-ok {ℓ κ} :
    {A : Type ℓ} {B : Type κ} (c : Checked A) (f : A → Checked B) {b : B}
    → (c >>= f) ≡ ok b
    → (a : A) × (c ≡ ok a) × (f a ≡ ok b)
>>=-eq-ok (ok a) f h = (a, refl, h)
>>=-eq-ok (err e) f h = cc

ok_value : {A : Type 0} → A → Checked A → A
ok_value a (ok b) = b
ok_value a (err e) = a

pub ok-injective : {A : Type 0} {a b : A} → ok a ≡ ok b → a ≡ b
unfolding ok_value
ok-injective {a = a} h = ap (ok_value a) h

pub guard-true : (b : Bool) (e : ConfigError) {u : Unit {0}} → guard b e ≡ ok u → b ≡ true
guard-true true e h = refl
guard-true false e h = cc

read_section-command :
    (sect : Dict Text) (check : CheckSection) {section : ProgramSection}
    → read_section sect check ≡ ok section
    → section.command ≡ get_or sect (codes "command") []
unfolding read_section
read_section-command sect check h =
    let (numprocs, e, h) = >>=-eq-ok (getint sect (codes "numprocs") _) _ h in
    let (startsecs, e, h) = >>=-eq-ok (getint sect (codes "startsecs") _) _ h in
    let (startretries, e, h) = >>=-eq-ok (getint sect (codes "startretries") _) _ h in
    let (stopwaitsecs, e, h) = >>=-eq-ok (getint sect (codes "stopwaitsecs") _) _ h in
    let (out_maxbytes, e, h) = >>=-eq-ok (getint sect (codes "stdout_logfile_maxbytes") _) _ h in
    let (out_backups, e, h) = >>=-eq-ok (getint sect (codes "stdout_logfile_backups") _) _ h in
    let (err_maxbytes, e, h) = >>=-eq-ok (getint sect (codes "stderr_logfile_maxbytes") _) _ h in
    let (err_backups, e, h) = >>=-eq-ok (getint sect (codes "stderr_logfile_backups") _) _ h in
    sym (ap (λ (s : ProgramSection). s.command) (ok-injective h))

-- A program has the name that it is read under, and the command of its section.
pub read_program-name_command :
    (name : Text) (sect : Dict Text) {p : Program}
    → read_program name sect ≡ ok p
    → (p.name ≡ name) × (p.section.command ≡ get_or sect (codes "command") [])
unfolding read_program
read_program-name_command name sect h =
    let (check, e, h) = >>=-eq-ok (read_check sect) _ h in
    let (section, read, h) = >>=-eq-ok (read_section sect check) _ h in
    let (environment, e, h) =
      >>=-eq-ok (environment_of (parse_env (get_or sect (codes "environment") []))) _ h in
    (
      sym (ap (λ (p : Program). p.name) (ok-injective h)),
      sym (ap (λ (p : Program). p.section.command) (ok-injective h))
          ∙ read_section-command sect check read,
    )
