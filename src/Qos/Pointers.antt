-- ===== src/Qos/Pointers.antt =====
-- pkg/qos: maps whose values are pointers, which are indices into a pool.
use mathlib.Core.Path.{subst}
use local_web.Base.{
  ℕ, ◌+◌, ◌<◌, ◌≡◌, sym, inl, inr, List, [], ◌∷◌, ◌++◌, some, arith, Bool-cases, Bytes, same,
  length, length-append, All, Dict, lookup, put,
}

-- The pointers of a map into a pool of n records.
abbrev pub Below : ℕ → Dict ℕ → Type 0
Below n m = All (λ (e : Bytes × ℕ). e.1 < n) m

pub lookup_below : (k : Bytes) (i n : ℕ) (m : Dict ℕ) → Below n m → lookup k m ≡ some i → i < n
lookup_below k i n [] h e = absurd (cc e)
lookup_below k i n ((j, v) ∷ m) h e = ground (arith, lookup_below k i n m h.1, h.0)

pub Below-put : (k : Bytes) (i n : ℕ) (m : Dict ℕ) → i < n → Below n m → Below n (put k i m)
Below-put k i n [] h b = (h, tt)
Below-put k i n ((j, v) ∷ m) h b = elim (Bool-cases (same j k)) [
  | inl e ↦ rw e (h, b.1)
  | inr e ↦ rw e (b.0, Below-put k i n m h b.1)
]

pub Below-suc : (n : ℕ) (m : Dict ℕ) → Below n m → Below (n + 1) m
Below-suc n [] h = tt
Below-suc n ((j, v) ∷ m) h = (omega (arith, h.0), Below-suc n m h.1)

pub length-snoc {ℓ} : {A : Type ℓ} (cs : List A) (c : A) → length (cs ++ (c ∷ [])) ≡ length cs + 1
length-snoc cs c = omega (arith, length-append cs (c ∷ []))

-- What a map points to after one more record has been put into the pool, and under a name of its own.
pub Below-grow {ℓ} :
    {A : Type ℓ} (cs : List A) (c : A) (m : Dict ℕ)
    → Below (length cs) m
    → Below (length (cs ++ (c ∷ []))) m
Below-grow cs c m h = subst (λ n. Below n m) (sym (length-snoc cs c)) (Below-suc (length cs) m h)

pub Below-new {ℓ} :
    {A : Type ℓ} (name : Bytes) (cs : List A) (c : A) (m : Dict ℕ)
    → Below (length cs) m
    → Below (length (cs ++ (c ∷ []))) (put name (length cs) m)
Below-new name cs c m h =
    Below-put name (length cs) _ m (omega (arith, length-snoc cs c)) (Below-grow cs c m h)
