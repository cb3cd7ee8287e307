-- ===== src/Tests/Offline.antt =====
-- The identifiers of two points of the receiver and one of the sender, with cells for hash values.
use opprf_fpsi.Prelude.{ℕ, zero, suc, ◌<◌, ◌≡◌, refl, [], ◌∷◌, arith, length, In, Returns}
use opprf_fpsi.Grid.Cells.{Point}
use opprf_fpsi.Grid.Neighbours.{Near}
use opprf_fpsi.Protocol.Offline.{sh_id_xr, sh_id_y}
use opprf_fpsi.Protocol.Offline.Laws.{sh_id_xr-sh_id_y}

abbrev receivers : ℕ → Point
receivers zero = 400 ∷ 300 ∷ []
receivers (suc i) = 40 ∷ 95 ∷ []

sizes : (j : ℕ) → j < 2 → length (receivers j) ≡ 2
sizes zero h = refl
sizes (suc j) h = refl

ranges : (j : ℕ) → j < 2 → Near 10 (receivers j) (receivers j)
ranges zero h = (
  omega arith,
  omega arith,
  omega arith,
  omega arith,
  (omega arith, omega arith, omega arith, omega arith, tt),
)
ranges (suc j) h = (
  omega arith,
  omega arith,
  omega arith,
  omega arith,
  (omega arith, omega arith, omega arith, omega arith, tt),
)

sh_id_xr-sh_id_y_example :
    Returns
      (sh_id_y (λ c. c) (45 ∷ 90 ∷ []) 2 10)
      λ id. Returns (sh_id_xr (λ c. c) receivers 2 0 2 10) (In id)
sh_id_xr-sh_id_y_example =
    sh_id_xr-sh_id_y (λ c. c) receivers (45 ∷ 90 ∷ []) 2 1 0 2 10 sizes ranges (omega arith)
      (omega arith) (omega arith) (omega arith) (omega arith)
      (
        omega arith,
        omega arith,
        omega arith,
        omega arith,
        (omega arith, omega arith, omega arith, omega arith, tt),
      )
