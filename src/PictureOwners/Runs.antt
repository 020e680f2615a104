-- ===== src/PictureOwners/Runs.antt =====
-- Any sequence of the operations on the picture indices of a driver.
use nvidia_vaapi_driver.Prelude.{ℕ, ◌^◌, ◌<◌, ◌≡◌, Option, none, Option-cases, inl, inr}
use nvidia_vaapi_driver.PictureOwners.{
  Driver, Assignment, picture_idx_from_surface_id, release_context_picture_indices,
  release_surface_picture_index, begin_index,
}
use nvidia_vaapi_driver.PictureOwners.Links.{Serving, IsLinked}
use nvidia_vaapi_driver.PictureOwners.Ownership.{picture_idx-IsLinked, release_surface-IsLinked}
use nvidia_vaapi_driver.PictureOwners.Teardown.{release_context-IsLinked}
use nvidia_vaapi_driver.PictureOwners.Choice.{begin_index-Assigned, assigned-inj}

-- An assignment is asked for in a live context, whose mask is a 32-bit word.
pub data Step (d : Driver) : Driver → Type 0 where
  look_up : (c : Option ℕ) (id : ℕ) → Step d (picture_idx_from_surface_id d c id).1
  release_surface : (s : Option ℕ) → Step d (release_surface_picture_index d s)
  release_context : (c : Option ℕ) → Step d (release_context_picture_indices d c)
  begin :
      (c s limit i : ℕ) (d' : Driver)
      → Serving d c
      → (d.contexts c).active_reference_mask < 2 ^ 32
      → begin_index d c s limit ≡ Assignment.assigned i d'
      → Step d d'

pub data Reach (d : Driver) : Driver → Type 0 where
  here : Reach d d
  next : {e f : Driver} → Reach d e → Step e f → Reach d f

begin-IsLinked :
    (d : Driver) (c s limit i : ℕ) (d' : Driver)
    → IsLinked d
    → Serving d c
    → (d.contexts c).active_reference_mask < 2 ^ 32
    → begin_index d c s limit ≡ Assignment.assigned i d'
    → IsLinked d'
unfolding begin_index
begin-IsLinked d c s limit i d' l v word h = elim (Option-cases (d.surfaces s).picture_index) [
  | inl n ↦ (begin_index-Assigned d c s limit i d' l v n word h).linked
  | inr (j, n) ↦
      let h' : Assignment.assigned j d ≡ Assignment.assigned i d' = rw (begin_index, n) at h in
      rw (← (assigned-inj j i d d' h').1) l
]

Step-IsLinked : {d e : Driver} → IsLinked d → Step d e → IsLinked e
Step-IsLinked {d} l (look_up c id) = picture_idx-IsLinked d c id l
Step-IsLinked {d} l (release_surface s) = release_surface-IsLinked d s l
Step-IsLinked {d} l (release_context c) = release_context-IsLinked d c l
Step-IsLinked {d} l (begin c s limit i d' v word h) = begin-IsLinked d c s limit i d' l v word h

-- From a driver in which no picture index has an owner, any look-ups, assignments to live contexts
-- and releases of surfaces and contexts, in any order, leave every owner of an index of a live
-- context linked to it: the surface has this index and no other, below 32 and below the counter,
-- and names this context and its id.
pub Reach-IsLinked :
    (d e : Driver) → ((c i : ℕ) → (d.contexts c).owners i ≡ none) → Reach d e → IsLinked e
Reach-IsLinked d e empty here = λ c i s v o. let n = empty c i in cc
Reach-IsLinked d e empty (next {e = f} r step) = Step-IsLinked (Reach-IsLinked d f empty r) step
