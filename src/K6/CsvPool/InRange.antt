-- ===== src/K6/CsvPool/InRange.antt =====
-- A pool that was loaded has a row for every VU.
use xk6_sip_media.Prelude.{
  ℕ, zero, suc, ◌%◌, ◌≤◌, ◌<◌, ◌≡◌, refl, Bool, true, false, Option, some, List, [], ◌∷◌, map,
  arith,
}
use xk6_sip_media.Prelude.{if◌then◌else◌, length, get_elem?}
use xk6_sip_media.Prelude.Int.{ℤ, pos, negsuc}
use mathlib.Core.Path.{subst}
use xk6_sip_media.K6.CsvPool.{
  CsvRow, CredentialPool, Mode, sequential, random, Loaded, LoadError, pool, load_failed,
  keep_lines, load_rows, load_data, is_header, split_row, detect_separator, load_csv,
  sequential_word, random_word, or_else, vu_index, pick,
}
use xk6_sip_media.Prelude.Text.{Str, same, upper}

get_elem?-lt :
    (rows : List CsvRow) (i : ℕ) → i < length rows → (row : CsvRow) × (get_elem? rows i ≡ some row)
get_elem?-lt [] i h = absurd (omega (arith, h))
get_elem?-lt (x ∷ rows) zero h = (x, refl)
get_elem?-lt (x ∷ rows) (suc i) h = get_elem?-lt rows i (omega (arith, h))

vu_index-lt : (vu : ℤ) (n : ℕ) → 1 ≤ n → vu_index vu n < n
unfolding vu_index
vu_index-lt (pos zero) n h = omega (arith, h)
vu_index-lt (pos (suc before)) n h = omega (arith, h)
vu_index-lt (negsuc k) n h = omega (arith, h)

HasRows : Loaded → Type 0
HasRows (pool p) = 1 ≤ length p.rows
HasRows (load_failed e) = Unit

if-HasRows : (b : Bool) (x y : Loaded) → HasRows x → HasRows y → HasRows (if b then x else y)
if-HasRows true x y p q = p
if-HasRows false x y p q = q

load_data-HasRows :
    (m : Mode) (names : List Str) (sep : ℕ) (lines : List Str)
    → HasRows (load_data m names sep lines)
unfolding load_data HasRows
load_data-HasRows m names sep [] = tt
load_data-HasRows m names sep (l ∷ ls) = omega arith

load_rows-HasRows :
    (name : ℕ → Str) (m : Mode) (lines : List Str) → HasRows (load_rows name m lines)
unfolding load_rows HasRows
load_rows-HasRows name m [] = tt
load_rows-HasRows name m (first ∷ others) =
    if-HasRows (is_header (split_row first (detect_separator first))) _ _
      (load_data-HasRows m _ _ others) (load_data-HasRows m _ _ (first ∷ others))

load_csv-HasRows :
    (name : ℕ → Str) (forced : Option (Option Mode)) (file : List Str)
    → HasRows (load_csv name forced file)
unfolding load_csv HasRows
load_csv-HasRows name forced file = by_lines (keep_lines file)
  where
    by_lines :
        (lines : List Str)
        → HasRows (elim lines [
          | [] ↦ load_failed LoadError.is_empty
          | first ∷ others ↦
              let word = map upper first in
              if same word sequential_word
              then load_rows name (or_else sequential forced) others
              else if same word random_word
              then load_rows name (or_else random forced) others
              else load_rows name (or_else sequential forced) (first ∷ others)
        ])
    by_lines [] = tt
    by_lines (first ∷ others) =
        let word = map upper first in
        if-HasRows (same word sequential_word) _ _ (load_rows-HasRows name _ others) (
          if-HasRows (same word random_word) _ _ (load_rows-HasRows name _ others)
            (load_rows-HasRows name _ (first ∷ others)))

-- A pool that a file was loaded into has a row for every VU id, also 0 and the negative ones, and
-- for every number that is drawn from the range of its rows: Pick never reads out of range.
pub pick_in_range :
    (name : ℕ → Str) (forced : Option (Option Mode)) (file : List Str) (p : CredentialPool) (r : ℕ)
    (vu : ℤ)
    → load_csv name forced file ≡ pool p
    → (row : CsvRow) × (pick (r % length p.rows) vu p ≡ some row)
unfolding HasRows pick
pick_in_range name forced file p r vu e =
    let rows : 1 ≤ length p.rows = subst HasRows e (load_csv-HasRows name forced file) in
    get_elem?-lt p.rows _ (by_mode p.mode rows)
  where
    by_mode :
        (m : Mode)
        → 1 ≤ length p.rows
        → elim m [ random ↦ r % length p.rows | sequential ↦ vu_index vu (length p.rows) ]
          < length p.rows
    by_mode random h = omega (arith, h)
    by_mode sequential h = vu_index-lt vu (length p.rows) h
