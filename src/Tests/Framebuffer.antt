-- ===== src/Tests/Framebuffer.antt =====
-- Runs of `framebuffer_hash_problem` (m9-hardware-test.py).
use micro_nux.Base.{◌≡◌, ◌↔◌, refl, [], ◌∷◌, ◌++◌, List, Text, codes, ok, raise, text_eq, some}
use micro_nux.Base.Regex.{find_all}
use micro_nux.Hardware.Framebuffer.{
  phase_hashes, collect_hashes, compare_hashes, compare_all, framebuffer_hash_problem, phase_empty,
  empty_sha256, runtime_status_problem,
}
use micro_nux.Hardware.Framebuffer.Unchanged.{Unchanged, framebuffer_hash_problem-Unchanged}

abbrev hash : Text
hash = codes "abababababababababababababababababababababababababababababababab"

abbrev line : Text → Text → Text
line phase value =
    codes "MICRONUX:M9:FB-SHA256 phase=" ++ (phase ++ (codes " sha256=" ++ (value ++ codes "\r\n")))

abbrev run : Text
run = line (codes "before") hash ++ (codes "noise\n" ++ line (codes "after") hash)

abbrev phases : List Text
phases = codes "before" ∷ codes "after" ∷ []

run_passes : framebuffer_hash_problem run phases ≡ ok tt
unfolding framebuffer_hash_problem phase_hashes collect_hashes compare_hashes compare_all find_all
    text_eq
run_passes = refl

empty_buffer :
    framebuffer_hash_problem (line (codes "before") empty_sha256) phases
    ≡ raise (phase_empty (codes "before"))
unfolding framebuffer_hash_problem phase_hashes collect_hashes compare_hashes compare_all find_all
    text_eq
empty_buffer = refl

no_status : runtime_status_problem run 1 ≡ some (0, 1)
unfolding runtime_status_problem find_all
no_status = refl

framebuffer_hash_problem-Unchanged_example :
    (framebuffer_hash_problem run phases ≡ ok tt) ↔ Unchanged run phases
framebuffer_hash_problem-Unchanged_example = framebuffer_hash_problem-Unchanged run phases
