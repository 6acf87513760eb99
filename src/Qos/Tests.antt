-- ===== src/Qos/Tests.antt =====
-- pkg/qos/qos.go: the theorems on a bucket of ten tokens, on the manager that `NewQoSManager` makes and on a
-- new hierarchy, where one token is earned in each unit of the rate.
use local_web.Base.{
  ℕ, ◌+◌, ◌*◌, ◌/◌, ◌≤◌, ◌≡◌, refl, false, List, [], ◌∷◌, arith, codes, if◌then◌else◌, ltb,
}
use local_web.Qos.Bucket.{TokenBucket, wait}
use local_web.Qos.Bucket.Laws.{IsBucket, run, earned_over, granted_bound, wait_starves}
use local_web.Qos.Manager.{QosManager, new_qos_manager, fifo}
use local_web.Qos.Hierarchy.{new_htb_hierarchy, add_class}
use local_web.Qos.Hierarchy.Tree.{IsTree, IsTree-new, add_class-IsTree}

-- A product that is at most 1000 tokens.
abbrev earned : ℕ → ℕ → ℕ
earned elapsed rate = if ltb (elapsed * rate / 1000) 1000 then elapsed * rate / 1000 else 1000

abbrev bucket : TokenBucket
bucket = record { capacity = 10; tokens = 3; refill_rate = 2; last_refill = 0 }

bucket-IsBucket : IsBucket bucket
bucket-IsBucket = record { small = omega arith; within = omega arith }

abbrev calls : List (ℕ × ℕ)
calls = (1000, 4) ∷ (1200, 9) ∷ (3000, 2) ∷ []

granted_bound_example :
    ((run earned calls bucket).0.tokens + (run earned calls bucket).1
      ≤ 3 + earned_over earned 2 0 calls)
    × IsBucket (run earned calls bucket).0
granted_bound_example =
    granted_bound earned calls bucket (omega arith, (omega arith, (omega arith, tt)))
      bucket-IsBucket (λ e. ground arith)

-- Polls 10 apart earn nothing at a rate of 2.
wait_starves_example :
    ((wait earned (10 ∷ 20 ∷ 30 ∷ []) 5 bucket).1 ≡ false)
    × ((wait earned (10 ∷ 20 ∷ 30 ∷ []) 5 bucket).0.tokens ≡ 3)
wait_starves_example =
    wait_starves earned (10 ∷ 20 ∷ 30 ∷ []) 5 bucket (omega arith) bucket-IsBucket
      (refl, (refl, (refl, tt))) (omega arith)

abbrev manager : QosManager
manager = new_qos_manager 0 fifo

add_class-IsTree_example :
    IsTree (add_class 3 (codes "web") (codes "root") 100 200 (new_htb_hierarchy 0))
add_class-IsTree_example =
    add_class-IsTree 3 (codes "web") (codes "root") 100 200 (new_htb_hierarchy 0) (IsTree-new 0)
