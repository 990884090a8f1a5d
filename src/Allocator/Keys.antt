-- ===== src/Allocator/Keys.antt =====
-- The keys of `gpu_devices` (backend/app/models/node.py): the primary key, and the unique constraint on
-- (node_id, gpu_index).
use my_frist_reop.Prelude.{
  ◌≡◌, ◌≢◌, refl, sym, ap, Bool, List, [], ◌∷◌, Memᴰ, All, All-of_Memᴰ, update_where, if◌then◌else◌,
  arith, ◌∙◌,
}
use my_frist_reop.Data.Cluster.{GpuDevice, GpuStatus}
use my_frist_reop.Allocator.{set_status}

-- Two rows differ in their key, and in their place.
abbrev pub IsApart : GpuDevice → GpuDevice → Type 0
IsApart g h = (g.id ≢ h.id) × (g.node_id ≡ h.node_id → g.gpu_index ≢ h.gpu_index)

abbrev pub AreDistinct : List GpuDevice → Type 0
AreDistinct [] = Unit
AreDistinct (g ∷ gs) = All (IsApart g) gs × AreDistinct gs

pub same_id :
    (g h : GpuDevice) (gs : List GpuDevice)
    → AreDistinct gs
    → Memᴰ g gs
    → Memᴰ h gs
    → g.id ≡ h.id
    → g ≡ h
same_id g h [] d m k e = elim m [ ]
same_id g h (x ∷ gs) d (Memᴰ.head p) (Memᴰ.head q) e = p ∙ sym q
same_id g h (x ∷ gs) d (Memᴰ.head p) (Memᴰ.tail k) e =
    absurd ((All-of_Memᴰ (IsApart x) h k d.0).0 (ap (λ (y : GpuDevice). y.id) (sym p) ∙ e))
same_id g h (x ∷ gs) d (Memᴰ.tail m) (Memᴰ.head q) e =
    absurd ((All-of_Memᴰ (IsApart x) g m d.0).0 (ap (λ (y : GpuDevice). y.id) (sym q) ∙ sym e))
same_id g h (x ∷ gs) d (Memᴰ.tail m) (Memᴰ.tail k) e = same_id g h gs d.1 m k e

pub same_place :
    (g h : GpuDevice) (gs : List GpuDevice)
    → AreDistinct gs
    → Memᴰ g gs
    → Memᴰ h gs
    → g.node_id ≡ h.node_id
    → g.gpu_index ≡ h.gpu_index
    → g ≡ h
same_place g h [] d m k e i = elim m [ ]
same_place g h (x ∷ gs) d (Memᴰ.head p) (Memᴰ.head q) e i = p ∙ sym q
same_place g h (x ∷ gs) d (Memᴰ.head p) (Memᴰ.tail k) e i = absurd (
    (All-of_Memᴰ (IsApart x) h k d.0).1 (ap (λ (y : GpuDevice). y.node_id) (sym p) ∙ e)
      (ap (λ (y : GpuDevice). y.gpu_index) (sym p) ∙ i))
same_place g h (x ∷ gs) d (Memᴰ.tail m) (Memᴰ.head q) e i = absurd (
    (All-of_Memᴰ (IsApart x) g m d.0).1 (ap (λ (y : GpuDevice). y.node_id) (sym q) ∙ sym e)
      (ap (λ (y : GpuDevice). y.gpu_index) (sym q) ∙ sym i))
same_place g h (x ∷ gs) d (Memᴰ.tail m) (Memᴰ.tail k) e i = same_place g h gs d.1 m k e i

-- An update of rows that keeps their keys and places.
pub record KeepsPlace (f : GpuDevice → GpuDevice) : Type 0 where
  pub id : (g : GpuDevice) → (f g).id ≡ g.id
  pub node_id : (g : GpuDevice) → (f g).node_id ≡ g.node_id
  pub gpu_index : (g : GpuDevice) → (f g).gpu_index ≡ g.gpu_index

pub set_status-KeepsPlace : (s : GpuStatus) → KeepsPlace (set_status s)
set_status-KeepsPlace s = record { id = λ g. refl; node_id = λ g. refl; gpu_index = λ g. refl }

module _ (p : GpuDevice → Bool) (f : GpuDevice → GpuDevice) (keeps : KeepsPlace f) where
  abbrev changed : GpuDevice → GpuDevice
  changed g = if p g then f g else g

  changed-IsApart : (g h : GpuDevice) → IsApart g h → IsApart (changed g) (changed h)
  changed-IsApart g h a = ground (
    arith,
    keeps.id g,
    keeps.id h,
    keeps.node_id g,
    keeps.node_id h,
    keeps.gpu_index g,
    keeps.gpu_index h,
  )

  IsApart-from_all :
      (g : GpuDevice) (gs : List GpuDevice)
      → All (IsApart g) gs
      → All (IsApart (changed g)) (update_where p f gs)
  IsApart-from_all g [] h = tt
  IsApart-from_all g (x ∷ gs) h = (changed-IsApart g x h.0, IsApart-from_all g gs h.1)

  pub update_where-AreDistinct :
      (gs : List GpuDevice) → AreDistinct gs → AreDistinct (update_where p f gs)
  update_where-AreDistinct [] d = tt
  update_where-AreDistinct (g ∷ gs) d = (IsApart-from_all g gs d.0, update_where-AreDistinct gs d.1)
