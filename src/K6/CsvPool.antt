-- ===== src/K6/CsvPool.antt =====
-- k6ext/csv_pool.go: the pool of credentials. A string is the list of its code points. The lines of
-- the file are those that the scanner yields; a failed open or read is left out.
pub mod Cycle
pub mod InRange
mod Runs
use xk6_sip_media.Prelude.{
  ℕ, zero, suc, ◌+◌, ◌-◌, ◌%◌, Bool, true, false, not, ◌&&◌, ◌||◌, Option, none, some, List, [],
  ◌∷◌, ◌++◌, map,
}
use xk6_sip_media.Prelude.{ltb, leb, ◌==◌, if◌then◌else◌, length, get_elem?, drop}
use xk6_sip_media.Prelude.Text.{Str, codes, same, trim_space, upper, split}
use xk6_sip_media.Prelude.Int.{ℤ, pos, negsuc}

abbrev pub sequential_word : Str
sequential_word = codes "SEQUENTIAL"

abbrev pub random_word : Str
random_word = codes "RANDOM"

unfoldable pub count : ℕ → Str → ℕ
count c [] = 0
count c (d ∷ ds) = let rest = count c ds in if d == c then rest + 1 else rest

unfoldable pub detect_separator : Str → ℕ
detect_separator line = if ltb (count 44 line) (count 59 line) then 59 else 44

unfoldable pub split_row : Str → ℕ → List Str
split_row line sep = map trim_space (split sep line)

unfoldable pub is_identifier : Str → Bool
is_identifier [] = true
is_identifier (c ∷ cs) =
    ((leb 97 c && leb c 122) || (leb 65 c && leb c 90) || (leb 48 c && leb c 57) || c == 95)
    && is_identifier cs

unfoldable pub is_header : List Str → Bool
is_header [] = true
is_header (h ∷ hs) = is_identifier h && is_header hs

-- A row is a map: the value of a header that comes twice is the later one.
abbrev pub CsvRow : Type 0
CsvRow = List (Str × Str)

unfoldable pub put : Str → Str → CsvRow → CsvRow
put h v [] = (h, v) ∷ []
put h v (e ∷ row) = let rest = put h v row in if same e.0 h then (h, v) ∷ row else e ∷ rest

-- A value that is missing at the end of the line is empty.
unfoldable pub fill : List Str → List Str → CsvRow → CsvRow
fill [] vals row = row
fill (h ∷ hs) [] row = fill hs [] (put h [] row)
fill (h ∷ hs) (v ∷ vals) row = fill hs vals (put h v row)

pub data Mode : Type 0 where
  sequential random : Mode

-- `counter` is an int64; more than 2 ^ 63 calls are left out.
pub record CredentialPool : Type 0 where
  pub rows : List CsvRow
  pub mode : Mode
  pub counter : ℕ

pub data LoadError : Type 0 where
  is_empty no_data_rows only_headers : LoadError

pub data Loaded : Type 0 where
  pool : CredentialPool → Loaded
  load_failed : LoadError → Loaded

-- The lines that are neither empty nor comments.
unfoldable pub keep_lines : List Str → List Str
keep_lines [] = []
keep_lines (l ∷ ls) =
    let rest = keep_lines ls in
    elim (trim_space l) [ [] ↦ rest | c ∷ cs ↦ if c == 35 then rest else (c ∷ cs) ∷ rest ]

unfoldable pub numbered : (ℕ → Str) → ℕ → List Str → List Str
numbered field_name i [] = []
numbered field_name i (h ∷ hs) = field_name i ∷ numbered field_name (i + 1) hs

unfoldable pub load_data : Mode → List Str → ℕ → List Str → Loaded
load_data mode names sep [] = load_failed only_headers
load_data mode names sep (l ∷ ls) = pool (record {
  rows = map (λ l. fill names (split_row l sep) []) (l ∷ ls);
  mode = mode;
  counter = 0;
})

-- The lines after the mode line; `field_name i` is "field" with the number i in decimal.
unfoldable pub load_rows : (ℕ → Str) → Mode → List Str → Loaded
load_rows field_name mode [] = load_failed no_data_rows
load_rows field_name mode (first ∷ others) =
    let sep = detect_separator first in
    let headers = split_row first sep in
    if is_header headers
    then load_data mode headers sep others
    else load_data mode (numbered field_name 0 headers) sep (first ∷ others)

unfoldable pub or_else : Mode → Option (Option Mode) → Mode
or_else m none = m
or_else m (some none) = sequential
or_else m (some (some forced)) = forced

-- `forced` is the mode that the options ask for: with a string that is no mode, the default stays.
unfoldable pub load_csv : (ℕ → Str) → Option (Option Mode) → List Str → Loaded
load_csv field_name forced file = elim (keep_lines file) [
  | [] ↦ load_failed is_empty
  | first ∷ others ↦
      let word = map upper first in
      if same word sequential_word
      then load_rows field_name (or_else sequential forced) others
      else if same word random_word
      then load_rows field_name (or_else random forced) others
      else load_rows field_name (or_else sequential forced) (first ∷ others)
]

-- The index of Pick: Go's remainder of a negative number is not positive, and is raised to 0.
unfoldable pub vu_index : ℤ → ℕ → ℕ
vu_index (pos zero) n = 0
vu_index (pos (suc before)) n = before % n
vu_index (negsuc k) n = 0

-- What rand.Intn comes back with is `drawn`.
unfoldable pub pick : ℕ → ℤ → CredentialPool → Option CsvRow
pick drawn vu p =
    get_elem? p.rows (elim p.mode [ random ↦ drawn | sequential ↦ vu_index vu (length p.rows) ])

unfoldable pub pick_round_robin : CredentialPool → CredentialPool × Option CsvRow
pick_round_robin p =
    if length p.rows == 0
    then (p, none)
    else (record p { counter = p.counter + 1 }, get_elem? p.rows (p.counter % length p.rows))
