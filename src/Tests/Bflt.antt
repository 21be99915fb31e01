-- ===== src/Tests/Bflt.antt =====
-- Runs of check-bflt-wx.py.
use micro_nux.Base.{◌<◌, ◌≡◌, refl, [], ◌∷◌, codes, ok, raise, true, false, text_eq, ◌↔◌}
use micro_nux.Bflt.{FileEntry, audit, count_valid, validate, check_header, no_images}
use micro_nux.Bflt.Audit.{AllSplittable, images, audit-eq-ok}

abbrev image : FileEntry
image = record {
  is_file = true;
  is_symlink = false;
  content =
      98 ∷ 70 ∷ 76 ∷ 84 ∷ 0 ∷ 0 ∷ 0 ∷ 4 ∷ 0 ∷ 0 ∷ 0 ∷ 64 ∷ 0 ∷ 0 ∷ 0 ∷ 128 ∷ 0 ∷ 0 ∷ 1 ∷ 0 ∷ 0 ∷ 0
      ∷ 1 ∷ 0 ∷ 0 ∷ 0 ∷ 2 ∷ 0 ∷ 0 ∷ 0 ∷ 0 ∷ 0 ∷ 0 ∷ 0 ∷ 0 ∷ 0 ∷ 0 ∷ 0 ∷ 0 ∷ 1 ∷ 0 ∷ 0 ∷ 0 ∷ 0 ∷ [];
}

abbrev script : FileEntry
script = record { is_file = true; is_symlink = false; content = codes "#!/bin/sh" }

passes : audit (script ∷ image ∷ []) ≡ ok 1
unfolding audit count_valid validate check_header text_eq
passes = refl

nothing_found : audit (script ∷ []) ≡ raise no_images
unfolding audit count_valid validate check_header text_eq
nothing_found = refl

audit-eq-ok_example :
    (audit (script ∷ image ∷ []) ≡ ok 1)
    ↔ (AllSplittable (script ∷ image ∷ []) × (0 < 1) × (images (script ∷ image ∷ []) ≡ 1))
audit-eq-ok_example = audit-eq-ok (script ∷ image ∷ []) 1
