-- ===== src/Viewer/Close.antt =====
-- The Escape key in libfreenect/examples/glview.c: what `keyPressed` frees. The driver's thread, which
-- stops the streams first and frees the driver's own buffers, is in Viewer/Thread.
use mathlib.Core.List.{Mem, Nodup}
use mathlib.Core.List.Perm
use quartz_composer_open_kin.Memory.{Heap, free}
use quartz_composer_open_kin.Memory.Frees.{free_each, free_each-frees, AllAllocated}
use quartz_composer_open_kin.Memory.Kept.{some-is}
use quartz_composer_open_kin.Prelude.{ℕ, ◌≡◌, none, some, List, >>=-eq_some, length, ◌∙◌}
use quartz_composer_open_kin.Viewer.{Viewer, App, Action, act_all, close_window}
use quartz_composer_open_kin.Viewer.Buffers.{IsBuffer, HasBuffers}
use quartz_composer_open_kin.Viewer.Safe.{ValidActions, act_all-IsShown}
use quartz_composer_open_kin.Viewer.Swapped.{buffers}
use quartz_composer_open_kin.Viewer.Shown.{IsShown}

IsBuffer-allocated : (p : ℕ) (h : Heap) → IsBuffer p h → (b : List ℕ) × (h.block p ≡ some b)
IsBuffer-allocated p h (q, b, e, f, l) = (b, rw (some-is e) f)

buffers-AllAllocated : (v : Viewer) (h : Heap) → HasBuffers v h → AllAllocated (buffers v) h
buffers-AllAllocated v h i = (
  IsBuffer-allocated v.depth_mid h i.depth_mid,
  (
    IsBuffer-allocated v.depth_front h i.depth_front,
    (
      IsBuffer-allocated v.rgb_back h i.rgb_back,
      (
        IsBuffer-allocated v.rgb_mid h i.rgb_mid,
        (IsBuffer-allocated v.rgb_front h i.rgb_front, tt),
      ),
    ),
  ),
)

close_window-each :
    (v : Viewer) (h h' : Heap) → free_each (buffers v) h ≡ some h' → close_window v h ≡ some h'
unfolding close_window free_each
close_window-each v h h' e =
    let (h₁, f₁, e₁) = >>=-eq_some (free (some v.depth_mid) h) _ e in
    let (h₂, f₂, e₂) = >>=-eq_some (free (some v.depth_front) h₁) _ e₁ in
    let (h₃, f₃, e₃) = >>=-eq_some (free (some v.rgb_back) h₂) _ e₂ in
    let (h₄, f₄, e₄) = >>=-eq_some (free (some v.rgb_mid) h₃) _ e₃ in
    let (h₅, f₅, e₅) = >>=-eq_some (free (some v.rgb_front) h₄) _ e₄ in
    rw (close_window, f₁, f₂, f₃, f₄) (f₅ ∙ e₅)

-- The end of a session. From a viewer whose video stream runs into `rgb_back` in a good state of the
-- driver, with 11-bit depth, a gamma table of 2048 words and five buffers that hold an RGB frame and
-- are all apart from one another, any sequence of packets of bytes, of drawing and of keys other than Escape returns. In
-- the heap that it leaves, the frees of `keyPressed` for Escape do not fault, and free exactly the
-- five buffers of the start.
pub act_all-closes :
    {W : Type 0} (t_gamma : List ℕ)
    → length t_gamma ≡ 2048
    → (xs : List Action) (a : App W) → ValidActions xs
    → IsShown a
    → Nodup (buffers a.viewer)
    → (b : App W) × (h : Heap) × (act_all t_gamma xs a ≡ some b)
      × (close_window b.viewer b.sys.heap ≡ some h)
      × ((q : ℕ) → Mem q (buffers a.viewer) → h.block q ≡ none)
      × ((q : ℕ) → ¬ Mem q (buffers a.viewer) → h.block q ≡ b.sys.heap.block q)
act_all-closes t_gamma t xs a v i d =
    let (b, e, k, p) = act_all-IsShown t_gamma t xs a v i in
    let (h, f, freed, others) =
      free_each-frees (buffers b.viewer) b.sys.heap (Perm.nodup (Perm.symm p) d)
        (buffers-AllAllocated b.viewer b.sys.heap k.buffers) in
    (
      b,
      h,
      e,
      close_window-each b.viewer b.sys.heap h f,
      λ q m. freed q ((Perm.mem_iff p).1 m),
      λ q n. others q (λ m. n ((Perm.mem_iff p).0 m)),
    )
