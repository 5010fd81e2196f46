-- ===== src/Client/Table.antt =====
-- The table of `status` (supervice/client.py).
pub mod Aligned
use supervice.Client.Uptime.{decimal, format_uptime}
use supervice.Prelude.{
  ℕ, zero, suc, ◌+◌, ◌-◌, Bool, true, false, ◌||◌, Option, none, some, List, [], ◌∷◌, ◌++◌, Text,
  codes, if◌then◌else◌, length,
}

-- What the server reports of a process; it leaves out "uptime" and "healthy" where it has no value.
pub record Row : Type 0 where
  pub name : Text
  pub state : Text
  pub pid : Option ℕ
  pub uptime : Option ℕ
  pub healthy : Option Bool

pub spaces : ℕ → Text
spaces zero = []
spaces (suc n) = 32 ∷ spaces n

-- f"{cell:<width}"
unfoldable pub pad : ℕ → Text → Text
unfolding spaces
pad width cell = cell ++ spaces (width - length cell)

is_there {ℓ} : {A : Type ℓ} → Option A → Bool
is_there none = false
is_there (some a) = true

unfoldable pub has_health : List Row → Bool
unfolding is_there
has_health [] = false
has_health (r ∷ rs) = is_there r.healthy || has_health rs

unfoldable pub has_uptime : List Row → Bool
unfolding is_there
has_uptime [] = false
has_uptime (r ∷ rs) = is_there r.uptime || has_uptime rs

-- proc.get("pid") or "-"
unfoldable pub pid_cell : Option ℕ → Text
unfolding decimal
pid_cell none = codes "-"
pid_cell (some zero) = codes "-"
pid_cell (some (suc n)) = decimal (suc n)

health_cell : Option Bool → Text
health_cell none = codes "-"
health_cell (some true) = codes "OK"
health_cell (some false) = codes "FAIL"

-- A column that a line has only if it is shown.
column : Bool → ℕ → Text → Text
unfolding pad
column shown width cell = if shown then 32 ∷ pad width cell else []

unfoldable pub cells : Bool → Bool → Text → Text → Text → Text → Text → Text
unfolding pad column
cells uptime health a b c d e =
    pad 20 a ++ (32 ∷ pad 10 b) ++ (32 ∷ pad 10 c) ++ column uptime 12 d ++ column health 10 e

unfoldable pub row_line : Bool → Bool → Row → Text
unfolding cells pid_cell health_cell format_uptime
row_line uptime health r =
    cells uptime health r.name r.state (pid_cell r.pid) (format_uptime r.uptime)
      (health_cell r.healthy)

row_lines : Bool → Bool → List Row → List Text
unfolding row_line
row_lines uptime health [] = []
row_lines uptime health (r ∷ rs) = row_line uptime health r ∷ row_lines uptime health rs

header_line : Bool → Bool → Text
unfolding cells
header_line uptime health =
    cells uptime health (codes "NAME") (codes "STATE") (codes "PID") (codes "UPTIME")
      (codes "HEALTH")

dashes : ℕ → Text
dashes zero = []
dashes (suc n) = 45 ∷ dashes n

separator : Bool → Bool → Text
unfolding dashes
separator uptime health = dashes (40 + (if uptime then 12 else 0) + (if health then 10 else 0))

-- The lines that `status` prints
unfoldable pub table : List Row → List Text
unfolding has_uptime has_health header_line separator row_lines
table rows =
    let uptime = has_uptime rows in
    let health = has_health rows in
    header_line uptime health ∷ separator uptime health ∷ row_lines uptime health rows
