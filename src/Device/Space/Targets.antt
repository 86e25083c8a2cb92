-- ===== src/Device/Space/Targets.antt =====
-- Where the plan of packages/server/src/device/space.ts puts an install, and when it refuses one.
use nslibrary.Common.{
  ℕ, ◌+◌, ◌≤◌, ◌<◌, ◌≡◌, true, false, Option, none, some, List, [], ◌∷◌, arith, ◌⊎◌, ◌-◌, ap, subst,
}
use nslibrary.Shared.Types.{Storage, InstallTarget}
use nslibrary.Device.Space.{
  ReportedSpace, SpaceDemand, Placement, PerStorage, Room, zeros, free_of, free_space, place,
  place_all, plan_space, SpacePlan,
}
use nslibrary.Device.Space.Capacity.{
  Accounts, start-IsBalanced, place_all-IsBalanced, fitted_bytes, place_all_takes,
}

-- The storage that a placement which fits may name.
abbrev pub Allowed : InstallTarget → Option Storage → Type 0
Allowed InstallTarget.auto o = (o ≡ some Storage.sd) ⊎ (o ≡ some Storage.nand)
Allowed InstallTarget.sd o = o ≡ some Storage.sd
Allowed InstallTarget.nand o = o ≡ some Storage.nand

-- More bytes than are left; what was never reported has no room.
abbrev pub TooBig : ℕ → Option ℕ → Type 0
TooBig bytes none = Unit {0}
TooBig bytes (some left) = left < bytes

abbrev pub Refused : InstallTarget → ℕ → PerStorage (Option ℕ) → Type 0
Refused InstallTarget.auto bytes left = TooBig bytes left.sd × TooBig bytes left.nand
Refused InstallTarget.sd bytes left = TooBig bytes left.sd
Refused InstallTarget.nand bytes left = TooBig bytes left.nand

-- A placement is right about what is left: it fits on a storage that the target allows, or no such
-- storage has the room.
abbrev pub Justified : PerStorage (Option ℕ) → SpaceDemand → Placement → Type 0
Justified left d p =
    (p.fits ≡ true → Allowed d.target p.storage) × (p.fits ≡ false → Refused d.target d.bytes left)

place-Justified : (r : Room) (d : SpaceDemand) → Justified r.left d (place r d).0
unfolding place
place-Justified r d = ground arith

abbrev Shrinks : Option ℕ → Option ℕ → Type 0
Shrinks none after = after ≡ none
Shrinks (some before) none = ⊥
Shrinks (some before) (some after) = after ≤ before

record IsShrunk (before after : PerStorage (Option ℕ)) : Type 0 where
  sd : Shrinks before.sd after.sd
  nand : Shrinks before.nand after.nand

place-IsShrunk : (r : Room) (d : SpaceDemand) → IsShrunk r.left (place r d).1.left
unfolding place
place-IsShrunk r d = ground arith

IsShrunk-trans : (a b c : PerStorage (Option ℕ)) → IsShrunk a b → IsShrunk b c → IsShrunk a c
IsShrunk-trans a b c p q = ground arith

place_all-IsShrunk : (r : Room) (ds : List SpaceDemand) → IsShrunk r.left (place_all r ds).1.left
unfolding place_all
place_all-IsShrunk r [] = ground arith
place_all-IsShrunk r (d ∷ ds) =
    IsShrunk-trans _ _ _ (place-IsShrunk r d) (place_all-IsShrunk (place r d).1 ds)

Justified-IsShrunk :
    (a b : PerStorage (Option ℕ)) (d : SpaceDemand) (p : Placement)
    → IsShrunk a b
    → Justified a d p
    → Justified b d p
Justified-IsShrunk a b d p s j = (j.0, λ e. refused d.target (j.1 e))
  where
    refused : (t : InstallTarget) → Refused t d.bytes a → Refused t d.bytes b
    refused t h = ground arith

-- Every placement of a list is right about what is left, item by item.
abbrev pub AllJustified : PerStorage (Option ℕ) → List SpaceDemand → List Placement → Type 0
AllJustified left [] [] = Unit {0}
AllJustified left [] (p ∷ ps) = ⊥
AllJustified left (d ∷ ds) [] = ⊥
AllJustified left (d ∷ ds) (p ∷ ps) = Justified left d p × AllJustified left ds ps

place_all-AllJustified :
    (r : Room) (ds : List SpaceDemand) → AllJustified (place_all r ds).1.left ds (place_all r ds).0
unfolding place_all
place_all-AllJustified r [] = tt
place_all-AllJustified r (d ∷ ds) = (
  Justified-IsShrunk r.left _ d (place r d).0
      (IsShrunk-trans _ _ _ (place-IsShrunk r d) (place_all-IsShrunk (place r d).1 ds))
      (place-Justified r d),
  place_all-AllJustified (place r d).1 ds,
)

-- What a storage has left when the plan has taken its bytes.
abbrev pub minus : Option ℕ → ℕ → Option ℕ
minus none taken = none
minus (some free) taken = some (free - taken)

abbrev pub left_after : ReportedSpace → SpacePlan → PerStorage (Option ℕ)
left_after space plan = record {
  sd = minus (free_of space.sd) (plan.queued.sd + plan.batch.sd);
  nand = minus (free_of space.nand) (plan.queued.nand + plan.batch.nand);
}

minus-eq :
    (start middle end : Option ℕ) (queued batch : ℕ)
    → Accounts start middle queued
    → Accounts middle end batch
    → end ≡ minus start (queued + batch)
minus-eq none middle end queued batch a b = ground arith
minus-eq (some free) none end queued batch a b = absurd a
minus-eq (some free) (some l) none queued batch a b = absurd b
minus-eq (some free) (some l) (some k) queued batch a b = ap some (omega arith)

-- For each item of the batch: a placement that fits names a storage that the item's target allows,
-- and one that does not fit is right to refuse, since what the plan leaves free on every storage
-- that the target allows is less than the item's bytes, or the console never reported it.
pub plan_space-AllJustified :
    (space : ReportedSpace) (pending batch : List SpaceDemand)
    → AllJustified
        (left_after space (plan_space space pending batch))
        batch
        (plan_space space pending batch).placements
unfolding plan_space
plan_space-AllJustified space pending batch =
    let first : Room = (place_all (record { left = free_space space; into = zeros }) pending).1 in
    let start : Room = record { left = first.left; into = zeros } in
    let second : Room = (place_all start batch).1 in
    let a = place_all-IsBalanced (free_space space) _ pending (start-IsBalanced _) in
    let b = place_all-IsBalanced first.left _ batch (start-IsBalanced _) in
    let e : second.left ≡ left_after space (plan_space space pending batch) = λ i. record {
      sd = minus-eq (free_of space.sd) first.left.sd second.left.sd _ _ a.sd b.sd i;
      nand = minus-eq (free_of space.nand) first.left.nand second.left.nand _ _ a.nand b.nand i;
    } in
    subst (λ l. AllJustified l batch (plan_space space pending batch).placements) e
      (place_all-AllJustified start batch)

minus_once : (start end : Option ℕ) (taken : ℕ) → Accounts start end taken → end ≡ minus start taken
minus_once none end taken h = ground arith
minus_once (some s) none taken h = absurd h
minus_once (some s) (some e) taken h = ap some (omega arith)

-- The same of the pending installs, and the bytes that they take together.
pub plan_space-queued :
    (space : ReportedSpace) (pending batch : List SpaceDemand)
    → (ps : List Placement) × AllJustified
        (record {
          sd = minus (free_of space.sd) (plan_space space pending batch).queued.sd;
          nand = minus (free_of space.nand) (plan_space space pending batch).queued.nand;
        })
        pending
        ps
      × ((plan_space space pending batch).queued.sd + (plan_space space pending batch).queued.nand
          ≡ fitted_bytes pending ps)
unfolding plan_space
plan_space-queued space pending batch =
    let start : Room = record { left = free_space space; into = zeros } in
    let first : Room = (place_all start pending).1 in
    let a = place_all-IsBalanced (free_space space) _ pending (start-IsBalanced _) in
    let e : first.left ≡ record {
      sd = minus (free_of space.sd) first.into.sd;
      nand = minus (free_of space.nand) first.into.nand;
    } =
      λ i. record {
        sd = minus_once (free_of space.sd) first.left.sd _ a.sd i;
        nand = minus_once (free_of space.nand) first.left.nand _ a.nand i;
      } in
    (
      (place_all start pending).0,
      subst (λ l. AllJustified l pending (place_all start pending).0) e
          (place_all-AllJustified start pending),
      omega (arith, place_all_takes start pending),
    )
