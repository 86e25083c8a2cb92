-- ===== src/Library/Prefer/Runs.antt =====
-- Two files of one content, and the theorem of packages/server/src/library/prefer.ts at them.
use nslibrary.Common.{ℕ, ◌≡◌, refl, true, some, List, [], ◌∷◌}
use nslibrary.Shared.Types.{ContainerFormat, nsp, nsz}
use nslibrary.Library.Prefer.{
  pick_preferred, pick_from, better_of, is_better, preferred_format_rank, compressed, uncompressed,
}

abbrev files : List (ContainerFormat × ℕ)
files = (nsp, 1) ∷ (nsz, 5) ∷ (nsz, 4) ∷ []

abbrev format_of : ContainerFormat × ℕ → ContainerFormat
format_of file = file.0

abbrev id_of : ContainerFormat × ℕ → ℕ
id_of file = file.1

picked : pick_preferred format_of id_of true files ≡ some (nsz, 4)
unfolding pick_preferred pick_from better_of is_better preferred_format_rank compressed uncompressed
picked = refl
