-- ===== src/Protocol/Lp/Near.antt =====
-- What the lists for the sums of powers have in common: near points, and the parts of an entry.
use opprf_fpsi.Prelude.{ℕ, ◌≤◌, ◌<◌, ◌≡◌, sym, ap, ◌∙◌, Bool, List}
use opprf_fpsi.Grid.Cells.{diff}
use opprf_fpsi.Protocol.Linf.Lists.{Owns}
use opprf_fpsi.Protocol.Powers.{prefix_val}
use opprf_fpsi.Protocol.Lp.{LpReceiver, Programmed, lp_entry}

module _ {Block : Type 0} (hash : List Bool → Block → ℕ → ℕ → ℕ → Block) where
  -- No two inputs have one hash value.
  abbrev pub IsSidedInjective : Type 0
  IsSidedInjective =
      (p q : List Bool) (a b : Block) (k m i j s t : ℕ)
      → hash p a k i s ≡ hash q b m j t
      → (p ≡ q) × (a ≡ b) × (k ≡ m) × (i ≡ j) × (s ≡ t)

  -- The point `i` has the identifier at `id_idx`, lies at most `delta` from `y` in this dimension,
  -- and the hash function `k` sends its identifier to the bin.
  abbrev pub IsNear : LpReceiver Block → ℕ → ℕ → ℕ → (ℕ → ℕ) → ℕ → Block → ℕ → ℕ → ℕ → ℕ → Type 0
  IsNear r delta cells pts_num pts y id k bin i id_idx =
      (i < pts_num)
      × Owns cells i id_idx
      × (diff (pts i) y ≤ delta)
      × (r.ids id_idx ≡ id)
      × (r.locations id_idx k ≡ bin)

  pub entry_row :
      (r : LpReceiver Block) (metric sigma d id_idx k bin : ℕ) (p : List Bool) (q : Block)
      (row : ℕ → ℕ)
      → bin ≡ r.locations id_idx k
      → (q, row) ≡ lp_entry hash r metric sigma d id_idx k p
      → row ≡ prefix_val metric (r.a_zero bin) (r.a_metric bin) (r.a_vole bin) d
  unfolding lp_entry
  entry_row r metric sigma d id_idx k bin p q row at eq =
      ap (λ (t : Programmed Block). t.1) eq
      ∙ ap (λ b. prefix_val metric (r.a_zero b) (r.a_metric b) (r.a_vole b) d) (sym at)

  pub entry_key :
      (r : LpReceiver Block) (metric sigma d id_idx k : ℕ) (p : List Bool) (q : Block) (row : ℕ → ℕ)
      → (q, row) ≡ lp_entry hash r metric sigma d id_idx k p
      → q ≡ hash p (r.ids id_idx) k (r.locations id_idx k) sigma
  unfolding lp_entry
  entry_key r metric sigma d id_idx k p q row eq = ap (λ (t : Programmed Block). t.0) eq
