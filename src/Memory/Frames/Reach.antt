-- ===== src/Memory/Frames/Reach.antt =====
-- Every sequence of calls of the allocator but those of `request_pages`.
use mathlib.Core.Path.{subst}
use ryanos.Prelude.{ℕ, ◌≡◌, Option, some}
use ryanos.Memory.Frames.{
  Frames, free_page, lock_page, reserve_page, unreserve_page, free_pages, lock_pages, reserve_pages,
  unreserve_pages, request_page,
}
use ryanos.Memory.Frames.Valid.{
  IsSound, IsTight, Keeps, Keeps-refl, Keeps-trans, lock_page-Keeps, free_page-Keeps,
  reserve_page-Keeps, unreserve_page-Keeps, for_pages-Keeps,
}
use ryanos.Memory.Frames.Request.{Answers, answers, request_page-Answers}

-- One call, with any arguments. `request_pages` is not among them: it may leave the cursor above
-- a free page.
pub data Step (f : Frames) : Frames → Type 0 where
  lock_one : (a : ℕ) → Step f (lock_page a f)
  free_one : (a : ℕ) → Step f (free_page a f)
  reserve_one : (a : ℕ) → Step f (reserve_page a f)
  unreserve_one : (a : ℕ) → Step f (unreserve_page a f)
  lock_many : (a n : ℕ) → Step f (lock_pages a n f)
  free_many : (a n : ℕ) → Step f (free_pages a n f)
  reserve_many : (a n : ℕ) → Step f (reserve_pages a n f)
  unreserve_many : (a n : ℕ) → Step f (unreserve_pages a n f)
  request_one : {f' : Frames} {address : ℕ} → request_page f ≡ some (f', address) → Step f f'

pub data Reach (f : Frames) : Frames → Type 0 where
  here : Reach f f
  next : {g h : Frames} → Reach f g → Step g h → Reach f h

Answers-Keeps :
    {f g : Frames} {address : ℕ} {r : Option (Frames × ℕ)}
    → Answers f r
    → r ≡ some (g, address)
    → Keeps f g
Answers-Keeps {f} (answers k _) e = subst (λ x. Keeps f x) (cc) k

Step-Keeps : {f g : Frames} → Step f g → IsSound f → IsTight f → Keeps f g
unfolding lock_pages free_pages reserve_pages unreserve_pages
Step-Keeps (lock_one a) v t = lock_page-Keeps a _ v
Step-Keeps (free_one a) v t = free_page-Keeps a _ v
Step-Keeps (reserve_one a) v t = reserve_page-Keeps a _ v
Step-Keeps (unreserve_one a) v t = unreserve_page-Keeps a _ v
Step-Keeps (lock_many a n) v t = for_pages-Keeps lock_page lock_page-Keeps a n 0 _ v
Step-Keeps (free_many a n) v t = for_pages-Keeps free_page free_page-Keeps a n 0 _ v
Step-Keeps (reserve_many a n) v t = for_pages-Keeps reserve_page reserve_page-Keeps a n 0 _ v
Step-Keeps (unreserve_many a n) v t = for_pages-Keeps unreserve_page unreserve_page-Keeps a n 0 _ v
Step-Keeps {f} (request_one e) v t = Answers-Keeps (request_page-Answers f v t) e

-- However the pages are locked, freed, reserved and unreserved, one by one or in ranges, and requested
-- one by one, a sound allocator stays sound and covers the same pages, no page below its cursor
-- becomes free, and its counters stay balanced with the bitmap.
pub Reach-Keeps : {f g : Frames} → IsSound f → IsTight f → Reach f g → Keeps f g
Reach-Keeps {f} v t here = Keeps-refl f v
Reach-Keeps v t (next r s) =
    let k = Reach-Keeps v t r in Keeps-trans k (Step-Keeps s k.sound (k.tight t))
