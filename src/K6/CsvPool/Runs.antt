-- ===== src/K6/CsvPool/Runs.antt =====
-- Runs of the pool of credentials.
use xk6_sip_media.Prelude.{◌≡◌, refl, none, some, List, [], ◌∷◌}
use xk6_sip_media.K6.CsvPool.{
  CsvRow, CredentialPool, sequential, pool, load_csv, load_rows, load_data, pick, keep_lines,
  or_else, detect_separator, count, split_row, is_header, is_identifier, fill, put,
}
use xk6_sip_media.Prelude.Text.{
  Str, trim_space, trim_left, trim_right, is_space, same, upper, split_at, split, keep_before,
}
use xk6_sip_media.Prelude.Int.{negsuc}
use xk6_sip_media.K6.CsvPool.InRange.{pick_in_range}
use xk6_sip_media.K6.CsvPool.Cycle.{picks, pick_cycle}

abbrev two_rows : CredentialPool
two_rows = record {
  rows = ((97 ∷ [], 49 ∷ []) ∷ []) ∷ ((97 ∷ [], 50 ∷ []) ∷ []) ∷ [];
  mode = sequential;
  counter = 0;
}

-- The lines "a", " 1", a comment, "2 ".
abbrev two_lines : List Str
two_lines = (97 ∷ []) ∷ (32 ∷ 49 ∷ []) ∷ (35 ∷ 49 ∷ []) ∷ (50 ∷ 32 ∷ []) ∷ []

load_csv_two : load_csv (λ i. i ∷ []) none two_lines ≡ pool two_rows
unfolding load_csv load_rows load_data keep_lines trim_space trim_left trim_right keep_before
    is_space same upper or_else detect_separator count split_row split split_at is_header
    is_identifier fill put
load_csv_two = refl

pick_cycle_example : picks 2 two_rows ≡ (
  record two_rows { counter = 2 },
  some ((97 ∷ [], 49 ∷ []) ∷ []) ∷ some ((97 ∷ [], 50 ∷ []) ∷ []) ∷ [],
)
pick_cycle_example = pick_cycle 0 two_rows refl

pick_in_range_example : (row : CsvRow) × (pick 1 (negsuc 4) two_rows ≡ some row)
pick_in_range_example =
    pick_in_range (λ i. i ∷ []) none two_lines two_rows 5 (negsuc 4) load_csv_two
