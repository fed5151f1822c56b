-- ===== src/Elf/Tests.antt =====
-- A program with a null entry and two to load.
use yay_os.Base.{ℕ, ◌≡◌, refl, none, some, List, [], ◌∷◌, arith}
use yay_os.Base.Int.{pos}
use yay_os.Utils.{align_up, align_down}
use yay_os.Elf.{ElfProgramHeaderEntry, area_of, parse_entries, mapping_flags_of}
use yay_os.Elf.Areas.{Accepted, parse_entries-Accepted}

abbrev load : ℕ → ℕ → ElfProgramHeaderEntry
load vaddr size = record {
  type_ = 1;
  flags = 5;
  offset = pos 0;
  vaddr = vaddr;
  file_size = pos size;
  memory_size = size;
}

abbrev null_entry : ElfProgramHeaderEntry
null_entry = record (load 0 0) { type_ = 0 }

abbrev two_areas : List ElfProgramHeaderEntry
two_areas = load 8200 100 ∷ null_entry ∷ load 12300 5000 ∷ []

overlapping : parse_entries 4096 (load 8200 100 ∷ load 8400 10 ∷ []) ≡ none
unfolding parse_entries area_of align_up align_down
overlapping = refl

first_area :
    parse_entries 4096 (load 8200 100 ∷ [])
    ≡ some (
        some (record {
          mapping_flags = 5;
          memory_base = 8192;
          memory_offset = 8200;
          memory_limit = 12288;
          file_offset = pos 0;
          file_size = pos 100;
        })
        ∷ [])
unfolding parse_entries area_of align_up align_down mapping_flags_of
first_area = refl

parse_entries-Accepted_example : Accepted 4096 two_areas (parse_entries 4096 two_areas)
parse_entries-Accepted_example = parse_entries-Accepted two_areas 4096 (omega arith)
