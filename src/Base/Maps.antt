-- ===== src/Base/Maps.antt =====
-- Maps as functions: one assignment, and reading behind it.
use Prim.Native.Nat.{ℕ}
use mathlib.Core.Path.{◌≡◌, refl}
use mathlib.Core.Logic.{◌≢◌, ◌⊎◌, inl, inr}
use mathlib.Core.Bool.{Bool}
use native.Mathlib.Omega.{arith}
use tcp_server_client_cpp.Base.Tests.{◌==◌, if◌then◌else◌, ==_iff, Bool-cases}

-- A map after an assignment at one key.
unfoldable pub put {ℓ κ} : {K : Type ℓ} {V : Type κ} → (K → K → Bool) → (K → V) → K → V → K → V
put same f k v j = if same j k then v else f j

-- Reading a map over numbers.
pub put-cases {κ} :
    {V : Type κ} (f : ℕ → V) (k : ℕ) (v : V) (j : ℕ)
    → ((j ≡ k) × (put ◌==◌ f k v j ≡ v)) ⊎ ((j ≢ k) × (put ◌==◌ f k v j ≡ f j))
unfolding put
put-cases f k v j = elim (Bool-cases (j == k)) [
  | inl e ↦ inl ((==_iff j k).0 e, rw e refl)
  | inr e ↦ inr (ground arith, rw e refl)
]
