-- ===== src/WorkerPool/Hash.antt =====
-- `fnv.New32a` over a string, by which `laneFor` chooses a lane.
use raider_worker.Base.{Text, [], refl, text, ℕ, ◌%◌, ◌*◌, ◌^◌, ◌∷◌, ◌≡◌}
use Prim.Native.Nat.{bit_xor}

abbrev pub fnv_offset : ℕ
fnv_offset = 2166136261

abbrev pub fnv_prime : ℕ
fnv_prime = 16777619

-- `Write` over the bytes, from the hash `h`.
unfoldable pub fnv_write : ℕ → Text → ℕ
fnv_write h [] = h
fnv_write h (c ∷ s) = fnv_write (bit_xor h c * fnv_prime % 2 ^ 32) s

-- `Sum32` after `Write`.
unfoldable pub sum32 : Text → ℕ
unfolding fnv_write
sum32 s = fnv_write fnv_offset s

-- The published test vector of the hash for "foobar".
sum32_foobar : sum32 (text "foobar") ≡ 0xbf9cf968
unfolding sum32
sum32_foobar = refl
