-- ===== src/Ingestion/Splitter/Examples.antt =====
-- Runs of the splitter with a tokenizer that takes each character for a token.
use docintel.Common.{[], ℕ, ◌≡◌, List, Text, codes, some, split_on}
use docintel.Ingestion.Splitter.{hard_loop, hard_fuel, split_text}
use docintel.Ingestion.Splitter.Hard.{hard_split_total}
use docintel.Ingestion.Splitter.Content.{Pieces, split_text-Pieces}

abbrev each : Text → List ℕ
each s = s

abbrev sample : Text
sample = codes "one two\nthree four five. six"

hard_split_total_example :
    (cs : List Text) × (hard_loop each each 9 2
        (hard_fuel each each 9 2 (split_on (codes " ") sample))
        []
        (split_on (codes " ") sample)
      ≡ some cs)
hard_split_total_example = hard_split_total each each 9 2 sample

split_text-Pieces_example : Pieces each each 9 2 sample (split_text each each 9 2 sample)
split_text-Pieces_example = split_text-Pieces each each 9 2 sample
