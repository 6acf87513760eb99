-- ===== src/Crdt/OrSet/Joins.antt =====
-- pkg/crdt/crdt.go, `ORSet`: replicas that hold the same facts, and the merge of such views as a
-- semilattice. The quotient by `SameView` forgets the order of entries and of tags.
use mathlib.Core.HLevel.{Π_prop, Π_set}
use mathlib.Core.Path.{fun_ext}
use mathlib.Core.Bool.{Bool-set}
use mathlib.Core.List.{Perm, Permᴰ}
use mathlib.Core.Logic.{∥∥₁_elim}
use local_web.Base.{any, any-perm, All-perm}
use mathlib.Core.Quot
use mathlib.Core.Quot.{Quot, Quot-set}
use local_web.Base.{◌≡◌, refl, ◌||◌, List, [], ◌∷◌, arith, Bytes, All, Bool-ext}
use local_web.Crdt.OrSet.{OrSet, merge, contains}
use local_web.Crdt.OrSet.View.{
  added, removed, IsOrSet, added-merge, removed-merge, IsOrSet-merge, contains_mono,
}

-- Two replicas hold the same added tags and the same tombstones.
pub record SameView (s u : OrSet) : Type 0 where
  pub added_eq : (e t : Bytes) → added s e t ≡ added u e t
  pub removed_eq : (t : Bytes) → removed s t ≡ removed u t

pub contains-SameView : (e : Bytes) (s u : OrSet) → SameView s u → contains e s ≡ contains e u
contains-SameView e s u v =
    Bool-ext _ _ (contains_mono e e s u λ t a r. (rw (← v.added_eq e t) a, rw (← v.removed_eq t) r))
      (contains_mono e e u s λ t a r. (rw (v.added_eq e t) a, rw (v.removed_eq t) r))

-- `merge` reads only the views of its arguments.
pub merge-SameView :
    (s s' u u' : OrSet)
    → IsOrSet s
    → IsOrSet s'
    → SameView s s'
    → SameView u u'
    → SameView (merge s u) (merge s' u')
merge-SameView s s' u u' k k' v w = record {
  added_eq = λ e t.
      ground
        (arith, added-merge s u e t k, added-merge s' u' e t k', v.added_eq e t, w.added_eq e t);
  removed_eq = λ t.
      ground (arith, removed-merge s u t, removed-merge s' u' t, v.removed_eq t, w.removed_eq t);
}

pub merge_comm : (s u : OrSet) → IsOrSet s → IsOrSet u → SameView (merge s u) (merge u s)
merge_comm s u k l = record {
  added_eq = λ e t. ground (arith, added-merge s u e t k, added-merge u s e t l);
  removed_eq = λ t. ground (arith, removed-merge s u t, removed-merge u s t);
}

pub merge_assoc :
    (s u w : OrSet) → IsOrSet s → IsOrSet u → SameView (merge s (merge u w)) (merge (merge s u) w)
merge_assoc s u w k l = record {
  added_eq = λ e t. ground (
    arith,
    added-merge s (merge u w) e t k,
    added-merge u w e t l,
    added-merge (merge s u) w e t (IsOrSet-merge s u l),
    added-merge s u e t k,
  );
  removed_eq = λ t. ground (
    arith,
    removed-merge s (merge u w) t,
    removed-merge u w t,
    removed-merge (merge s u) w t,
    removed-merge s u t,
  );
}

pub merge_idem : (s : OrSet) → IsOrSet s → SameView (merge s s) s
merge_idem s k = record {
  added_eq = λ e t. ground (arith, added-merge s s e t k);
  removed_eq = λ t. ground (arith, removed-merge s s t);
}

-- Merging a list of replicas, one after the other.
pub merge_all : List OrSet → OrSet → OrSet
merge_all [] u = u
merge_all (s ∷ ss) u = merge_all ss (merge s u)

added-merge_all :
    (ss : List OrSet) (u : OrSet) (e t : Bytes)
    → All IsOrSet ss
    → added (merge_all ss u) e t ≡ (any (λ s. added s e t) ss || added u e t)
unfolding merge_all
added-merge_all [] u e t k = refl
added-merge_all (s ∷ ss) u e t k =
    ground (arith, added-merge_all ss (merge s u) e t k.1, added-merge s u e t k.0)

removed-merge_all :
    (ss : List OrSet) (u : OrSet) (t : Bytes)
    → removed (merge_all ss u) t ≡ (any (λ s. removed s t) ss || removed u t)
unfolding merge_all
removed-merge_all [] u t = refl
removed-merge_all (s ∷ ss) u t =
    ground (arith, removed-merge_all ss (merge s u) t, removed-merge s u t)

SameView-merge_all :
    (ss us : List OrSet) (u : OrSet)
    → Permᴰ ss us
    → All IsOrSet ss
    → SameView (merge_all ss u) (merge_all us u)
SameView-merge_all ss us u p k = record {
  added_eq = λ e t. ground (
    arith,
    added-merge_all ss u e t k,
    added-merge_all us u e t (All-perm IsOrSet p k),
    any-perm (λ s. added s e t) p,
  );
  removed_eq = λ t.
      ground
        (arith, removed-merge_all ss u t, removed-merge_all us u t, any-perm (λ s. removed s t) p);
}

-- Strong convergence: two replicas in the same state that merge the same well-formed states, in
-- whatever order, agree on every element.
pub merge_all-perm :
    (ss us : List OrSet) (u : OrSet) (e : Bytes)
    → Perm ss us
    → All IsOrSet ss
    → contains e (merge_all ss u) ≡ contains e (merge_all us u)
merge_all-perm ss us u e p k =
    ∥∥₁_elim p (Bool-set _ _) (λ q. contains-SameView e _ _ (SameView-merge_all ss us u q k))

-- A replica up to what it knows.
abbrev pub Replica : Type 0
Replica = (s : OrSet) × IsOrSet s

abbrev pub SameReplica : Replica → Replica → Type 0
SameReplica a b = SameView a.0 b.0

abbrev pub Knowledge : Type 0
Knowledge = Quot SameReplica

SameView-refl : (s : OrSet) → SameView s s
SameView-refl s = record { added_eq = λ e t. refl; removed_eq = λ t. refl }

merge_replica : Replica → Replica → Replica
merge_replica a b = (merge a.0 b.0, IsOrSet-merge a.0 b.0 b.1)

join_with : Replica → Knowledge → Knowledge
join_with a =
    Quot.lift Quot-set (λ b. Quot.mk (merge_replica a b))
      (λ b c v.
        Quot.sound
          (unfold merge_replica in merge-SameView a.0 a.0 b.0 c.0 a.1 a.1 (SameView-refl a.0) v))

join_with_eq : (a b : Replica) → SameReplica a b → join_with a ≡ join_with b
unfolding join_with merge_replica
join_with_eq a b v = fun_ext (
    Quot.ind (λ y. Quot-set _ _)
      (λ c. Quot.sound (merge-SameView a.0 b.0 c.0 c.0 a.1 b.1 v (SameView-refl c.0))))

pub join : Knowledge → Knowledge → Knowledge
join = Quot.lift (Π_set (λ x. Quot-set)) join_with join_with_eq

-- Up to what well-formed replicas know, `Merge` is the join of a semilattice: commutative, associative
-- and idempotent.
pub join_laws :
    (x y z : Knowledge)
    → (join x y ≡ join y x) × (join x (join y z) ≡ join (join x y) z) × (join x x ≡ x)
unfolding join join_with merge_replica
join_laws x y z = (
  Quot.ind {β = λ q. (r : Knowledge) → join q r ≡ join r q} (λ q. Π_prop λ r. Quot-set _ _)
      (λ a. Quot.ind (λ r. Quot-set _ _) (λ b. Quot.sound (merge_comm a.0 b.0 a.1 b.1))) x y,
  Quot.ind {β = λ q. (r s : Knowledge) → join q (join r s) ≡ join (join q r) s}
      (λ q. Π_prop λ r. Π_prop λ s. Quot-set _ _)
      (λ a.
        Quot.ind
          {β = λ r. (s : Knowledge) → join (Quot.mk a) (join r s) ≡ join (join (Quot.mk a) r) s}
          (λ r. Π_prop λ s. Quot-set _ _)
          (λ b. Quot.ind (λ s. Quot-set _ _) (λ c. Quot.sound (merge_assoc a.0 b.0 c.0 a.1 b.1))))
      x y z,
  Quot.ind {β = λ q. join q q ≡ q} (λ q. Quot-set _ _) (λ a. Quot.sound (merge_idem a.0 a.1)) x,
)
