-- ===== src/Tests/Boot.antt =====
-- Runs of `boot_contract_problem` (m9-hardware-test.py).
use micro_nux.Base.{◌≡◌, ◌↔◌, refl, some, none, ◌++◌, Text, codes}
use micro_nux.Base.Find.{find_from, find_in}
use micro_nux.Base.Strings.{join, is_within}
use micro_nux.Hardware.{failure_marker, first_within}
use micro_nux.Hardware.Boot.{
  ordered_markers, required_fragments, terminal_failure, boot_contract_problem, first_out_of_order,
  first_missing,
}
use micro_nux.Hardware.Boot.Order.{GoodBoot, boot_contract_problem-GoodBoot}

abbrev boot_log : Text
boot_log =
    codes "Linux version 6.12.27\n"
    ++ (join (codes "\n") ordered_markers ++ join (codes "\n") required_fragments)

boots : boot_contract_problem boot_log ≡ none
unfolding boot_contract_problem failure_marker first_within first_out_of_order first_missing
    find_from find_in is_within join
boots = refl

panics :
    boot_contract_problem (boot_log ++ codes "Oops: ") ≡ some (terminal_failure (codes "Oops:"))
unfolding boot_contract_problem failure_marker first_within first_out_of_order first_missing
    find_from find_in is_within join
panics = refl

boot_contract_problem-GoodBoot_example : (boot_contract_problem boot_log ≡ none) ↔ GoodBoot boot_log
boot_contract_problem-GoodBoot_example = boot_contract_problem-GoodBoot boot_log
