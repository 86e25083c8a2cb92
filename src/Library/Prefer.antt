-- ===== src/Library/Prefer.antt =====
-- packages/server/src/library/prefer.ts: which of several files of one content is taken. An item is
-- given by its format and its id; `none` stands for the throw on an empty list.
pub mod Best
mod Runs
use nslibrary.Common.{
  ℕ, Bool, ◌&&◌, ◌||◌, Option, none, some, List, [], ◌∷◌, ltb, ◌==◌, if◌then◌else◌,
}
use nslibrary.Shared.Types.{ContainerFormat, nsp, nsz, xci, xcz, nro}

-- COMPRESSED
unfoldable pub compressed : ContainerFormat → ℕ
compressed nsz = 0
compressed xcz = 1
compressed nsp = 2
compressed xci = 3
compressed nro = 4

-- UNCOMPRESSED
unfoldable pub uncompressed : ContainerFormat → ℕ
uncompressed nsp = 0
uncompressed xci = 1
uncompressed nsz = 2
uncompressed xcz = 3
uncompressed nro = 4

unfoldable pub preferred_format_rank : ContainerFormat → Bool → ℕ
unfolding compressed uncompressed
preferred_format_rank format prefer_compressed =
    if prefer_compressed then compressed format else uncompressed format

module _ {T : Type 0} (format_of : T → ContainerFormat) (id_of : T → ℕ)
    (prefer_compressed : Bool) where
  -- The test of the reduction: `item` replaces `best`.
  unfoldable pub is_better : T → T → Bool
  unfolding preferred_format_rank
  is_better item best =
      let best_rank = preferred_format_rank (format_of best) prefer_compressed in
      let item_rank = preferred_format_rank (format_of item) prefer_compressed in
      ltb item_rank best_rank || ((item_rank == best_rank) && ltb (id_of item) (id_of best))

  unfoldable pub better_of : T → T → T
  unfolding is_better
  better_of best item = if is_better item best then item else best

  unfoldable pub pick_from : T → List T → T
  unfolding better_of
  pick_from best [] = best
  pick_from best (item ∷ items) = pick_from (better_of best item) items

  unfoldable pub pick_preferred : List T → Option T
  unfolding pick_from
  pick_preferred [] = none
  pick_preferred (first ∷ items) = some (pick_from first (first ∷ items))
