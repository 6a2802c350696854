-- ===== src/Sync/RwMutex/Steps.antt =====
-- What a step of the read-write mutex of runtime/src/sync.c consists of.
use picasso_lang.Base.{ℕ, ◌≡◌, inl, inr, some, get_elem?, set, Option-cases, arith}
use picasso_lang.Sync.RwMutex.{Pc, Shared, Choice, act, World, step}

pub step-act :
    (w v : World) (i : ℕ) (c : Choice)
    → step i c w ≡ some v
    → (pc pc' : Pc) × (s : Shared) × (get_elem? w.pcs i ≡ some pc)
      × (act i pc c w.shared ≡ some (pc', s))
      × (v ≡ record { pcs = set w.pcs i pc'; shared = s })
unfolding step
step-act w v i c e = elim (Option-cases (get_elem? w.pcs i)) [
  | inl o ↦ absurd (ground arith)
  | inr (pc, o) ↦ elim (Option-cases (act i pc c w.shared)) [
    | inl m ↦ absurd (ground arith)
    | inr ((pc', s), m) ↦ (pc, pc', s, o, m, ground arith)
  ]
]
