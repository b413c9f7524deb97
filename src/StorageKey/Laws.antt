-- ===== src/StorageKey/Laws.antt =====
-- src/storage_key.rs: what the test for a prefix decides.
use beelay.Prelude.{sym, ◌∙◌, inl, inr, refl, [], ap, arith, take}
use beelay.Prelude.{◌↔◌, ◌∷◌, true, ℕ, ◌≤◌, List, length, ◌≡◌, Bool-cases}
use beelay.Prelude.Equality.{nats_eq, nats_beq_iff, =?-comm}
use beelay.StorageKey.{Namespace, dags, sedimentrees, blobs, other, StorageKey, namespace_beq}
use beelay.StorageKey.{zip_all, is_prefix_of}

namespace_beq_iff : (a b : Namespace) → (namespace_beq a b ≡ true) ↔ (a ≡ b)
unfolding namespace_beq
namespace_beq_iff dags dags = (λ h. refl, λ h. refl)
namespace_beq_iff sedimentrees sedimentrees = (λ h. refl, λ h. refl)
namespace_beq_iff blobs blobs = (λ h. refl, λ h. refl)
namespace_beq_iff (other a) (other b) =
    (λ h. ap other ((nats_beq_iff a b).0 h), λ p. (nats_beq_iff a b).1 (cc p))
namespace_beq_iff dags sedimentrees = (λ h. cc, λ h. cc)
namespace_beq_iff dags blobs = (λ h. cc, λ h. cc)
namespace_beq_iff dags (other b) = (λ h. cc, λ h. cc)
namespace_beq_iff sedimentrees dags = (λ h. cc, λ h. cc)
namespace_beq_iff sedimentrees blobs = (λ h. cc, λ h. cc)
namespace_beq_iff sedimentrees (other b) = (λ h. cc, λ h. cc)
namespace_beq_iff blobs dags = (λ h. cc, λ h. cc)
namespace_beq_iff blobs sedimentrees = (λ h. cc, λ h. cc)
namespace_beq_iff blobs (other b) = (λ h. cc, λ h. cc)
namespace_beq_iff (other a) dags = (λ h. cc, λ h. cc)
namespace_beq_iff (other a) sedimentrees = (λ h. cc, λ h. cc)
namespace_beq_iff (other a) blobs = (λ h. cc, λ h. cc)

zip_all_iff :
    (xs ys : List (List ℕ))
    → length xs ≤ length ys
    → (zip_all xs ys ≡ true) ↔ (take (length xs) ys ≡ xs)
unfolding zip_all
zip_all_iff [] ys h = (λ p. refl, λ p. refl)
zip_all_iff (a ∷ xs) [] h = absurd (omega arith)
zip_all_iff (a ∷ xs) (b ∷ ys) h = ground (arith, nats_beq_iff a b, zip_all_iff xs ys (omega arith))

zip_all_comm : (xs ys : List (List ℕ)) → zip_all xs ys ≡ zip_all ys xs
unfolding zip_all
zip_all_comm [] [] = refl
zip_all_comm [] (b ∷ ys) = refl
zip_all_comm (a ∷ xs) [] = refl
zip_all_comm (a ∷ xs) (b ∷ ys) = rw (=?-comm a b, zip_all_comm xs ys) refl

namespace_beq_comm : (a b : Namespace) → namespace_beq a b ≡ namespace_beq b a
namespace_beq_comm a b = elim (Bool-cases (namespace_beq a b)) [
  | inl y ↦ y ∙ sym ((namespace_beq_iff b a).1 (sym ((namespace_beq_iff a b).0 y)))
  | inr n ↦ elim (Bool-cases (namespace_beq b a)) [
    | inl y ↦ cc ((namespace_beq_iff a b).1 (sym ((namespace_beq_iff b a).0 y)))
    | inr m ↦ n ∙ sym m
  ]
]

-- Where `k` has no more components than `o`, the test for a prefix says whether `o` begins with the namespace
-- and the components of `k`.
pub is_prefix_of_iff :
    (k o : StorageKey)
    → length k.remaining ≤ length o.remaining
    → (is_prefix_of k o ≡ true)
      ↔ ((k.namespace ≡ o.namespace) × (take (length k.remaining) o.remaining ≡ k.remaining))
unfolding is_prefix_of
is_prefix_of_iff k o h =
    ground (arith, namespace_beq_iff k.namespace o.namespace, zip_all_iff k.remaining o.remaining h)

-- The test for a prefix does not tell which of two keys is the shorter: it gives the same answer both ways round,
-- so that it also calls a longer key the prefix of a shorter one.
pub is_prefix_of_comm : (k o : StorageKey) → is_prefix_of k o ≡ is_prefix_of o k
unfolding is_prefix_of
is_prefix_of_comm k o =
    rw (namespace_beq_comm k.namespace o.namespace, zip_all_comm k.remaining o.remaining) refl
