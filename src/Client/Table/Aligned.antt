-- ===== src/Client/Table/Aligned.antt =====
-- The lines of the client's table are aligned (supervice/client.py, `status`).
use supervice.Client.Table.{
  Row, spaces, pad, pid_cell, health_cell, column, cells, row_line, row_lines, header_line,
  has_uptime, has_health, table,
}
use supervice.Client.Uptime.{format_uptime}
use supervice.Prelude.{
  ℕ, zero, suc, ◌+◌, ◌-◌, ◌≤◌, ◌≡◌, refl, ap, ◌∙◌, Bool, true, false, Option, none, some, List, [],
  ◌∷◌, ◌++◌, Text, codes, if◌then◌else◌, length, arith, length-append,
}

length-spaces : (n : ℕ) → length (spaces n) ≡ n
unfolding spaces
length-spaces zero = refl
length-spaces (suc n) = omega (arith, length-spaces n)

length-pad : (width : ℕ) (cell : Text) → length cell ≤ width → length (pad width cell) ≡ width
unfolding pad
length-pad width cell h =
    length-append cell (spaces (width - length cell))
    ∙ omega (arith, length-spaces (width - length cell))

-- The width of a table whose optional columns are shown or not.
abbrev pub width : Bool → Bool → ℕ
width uptime health = 42 + ((if uptime then 13 else 0) + (if health then 11 else 0))

length-column :
    (b : Bool) (w : ℕ) (cell : Text)
    → length cell ≤ w
    → length (column b w cell) ≡ (if b then suc w else 0)
unfolding column
length-column true w cell h = ap suc (length-pad w cell h)
length-column false w cell h = refl

length-append_five :
    (p q r s t : Text)
    → length (p ++ q ++ r ++ s ++ t) ≡ length p + length q + length r + length s + length t
length-append_five p q r s t = omega (
  arith,
  length-append (p ++ q ++ r ++ s) t,
  length-append (p ++ q ++ r) s,
  length-append (p ++ q) r,
  length-append p q,
)

columns : (u h : Bool) → 20 + 11 + 11 + (if u then 13 else 0) + (if h then 11 else 0) ≡ width u h
columns true true = refl
columns true false = refl
columns false true = refl
columns false false = refl

length-cells :
    (u h : Bool) (a b c d e : Text)
    → length a ≤ 20
    → length b ≤ 10
    → length c ≤ 10
    → length d ≤ 12
    → length e ≤ 10
    → length (cells u h a b c d e) ≡ width u h
unfolding cells
length-cells u h a b c d e la lb lc ld le =
    length-append_five (pad 20 a) (32 ∷ pad 10 b) (32 ∷ pad 10 c) (column u 12 d) (column h 10 e)
    ∙ rw
        (
          length-pad 20 a la,
          length-pad 10 b lb,
          length-pad 10 c lc,
          length-column u 12 d ld,
          length-column h 10 e le,
        )
        (columns u h)

-- A row whose cells are no wider than their columns.
abbrev pub Fits : Row → Type 0
Fits r =
    (length r.name ≤ 20)
    × (length r.state ≤ 10)
    × (length (pid_cell r.pid) ≤ 10)
    × (length (format_uptime r.uptime) ≤ 12)

abbrev pub AllFit : List Row → Type 0
AllFit [] = Unit {0}
AllFit (r ∷ rs) = Fits r × AllFit rs

abbrev pub AllAreWide : ℕ → List Text → Type 0
AllAreWide n [] = Unit {0}
AllAreWide n (t ∷ ts) = (length t ≡ n) × AllAreWide n ts

length-health_cell : (o : Option Bool) → length (health_cell o) ≤ 10
unfolding health_cell
length-health_cell none = omega arith
length-health_cell (some true) = omega arith
length-health_cell (some false) = omega arith

length-row_line : (u h : Bool) (r : Row) → Fits r → length (row_line u h r) ≡ width u h
unfolding row_line
length-row_line u h r (name, state, pid, uptime) =
    length-cells u h r.name r.state (pid_cell r.pid) (format_uptime r.uptime)
      (health_cell r.healthy) name state pid uptime (length-health_cell r.healthy)

length-header_line : (u h : Bool) → length (header_line u h) ≡ width u h
unfolding header_line
length-header_line u h =
    length-cells u h (codes "NAME") (codes "STATE") (codes "PID") (codes "UPTIME") (codes "HEALTH")
      (omega arith) (omega arith) (omega arith) (omega arith) (omega arith)

rows_wide :
    (u h : Bool) (rows : List Row) → AllFit rows → AllAreWide (width u h) (row_lines u h rows)
unfolding row_lines
rows_wide u h [] f = tt
rows_wide u h (r ∷ rows) (f, fs) = (length-row_line u h r f, rows_wide u h rows fs)

-- The lines of a table after the heading, without the line of dashes.
abbrev pub entries : List Text → List Text
entries [] = []
entries (t ∷ []) = t ∷ []
entries (t ∷ s ∷ ts) = t ∷ ts

-- If the cells of a table are no wider than their columns, the heading and the rows' lines are all of
-- the same width: 42, with 13 more if a process has an uptime and 11 more if one has a health.
pub table-AllAreWide :
    (rows : List Row)
    → AllFit rows
    → AllAreWide (width (has_uptime rows) (has_health rows)) (entries (table rows))
unfolding table
table-AllAreWide rows f =
    let u = has_uptime rows in
    let h = has_health rows in (length-header_line u h, rows_wide u h rows f)
