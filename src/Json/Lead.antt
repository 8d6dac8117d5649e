-- ===== src/Json/Lead.antt =====
-- Which branch of the prefix scan a lead byte takes.
use cubicle.Json.Sequence.{ThreeRow, FourRow}
use cubicle.Json.Prefix.{advance_four, advance_two, advance_three, advance}
use cubicle.Json.Chunk.{within}
use cubicle.Base.{inl, true, ℕ, arith, ◌≤◌, inr, ◌≡◌, Bytes}

module _ (c : ℕ) (s : Bytes) (high : 0x80 ≤ c) where
  pub lead-two : within 0xc2 0xdf c ≡ true → advance c s ≡ advance_two s
  unfolding advance
  lead-two h = ground arith

  pub lead-three : (lo hi : ℕ) → ThreeRow c lo hi → advance c s ≡ advance_three s lo hi
  unfolding advance
  lead-three lo hi (inl r) = ground arith
  lead-three lo hi (inr (inl r)) = ground arith
  lead-three lo hi (inr (inr (inl r, r1, r2))) = ground arith
  lead-three lo hi (inr (inr (inr r, r1, r2))) = ground arith

  pub lead-four : (lo hi : ℕ) → FourRow c lo hi → advance c s ≡ advance_four s lo hi
  unfolding advance
  lead-four lo hi (inl r) = ground arith
  lead-four lo hi (inr (inl r)) = ground arith
  lead-four lo hi (inr (inr r)) = ground arith
