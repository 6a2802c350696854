-- ===== src/Hash/Tests.antt =====
-- The hash of runtime/src/crypto.c at concrete inputs.
use picasso_lang.Base.{◌≢◌, [], ◌∷◌, arith, ◌≡◌, refl}
use picasso_lang.Hash.{hash, offset_basis}
use picasso_lang.Hash.Change.{hash-changes}

empty_hash : hash [] ≡ offset_basis
unfolding hash
empty_hash = refl

hash-changes_example : hash (97 ∷ 98 ∷ 99 ∷ []) ≢ hash (97 ∷ 120 ∷ 99 ∷ [])
hash-changes_example =
    hash-changes (97 ∷ []) 98 120 (99 ∷ []) (omega arith) (omega arith) (omega arith, omega arith)
      (λ e. omega arith)
