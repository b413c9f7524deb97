-- ===== src/StorageKey/Equality.antt =====
-- src/storage_key.rs: the derived `Eq` of keys decides equality.
use beelay.Prelude.{Bool, true, false, ◌&&◌, ◌≡◌, refl, ap, sym, ◌∙◌}
use beelay.Prelude.Equality.{Eq, list_beq, list_beq_iff, nats_eq, eq_of_=?, =?-refl}
use beelay.StorageKey.{Namespace, dags, sedimentrees, blobs, other, namespace_beq, StorageKey}

namespace_beq_refl : (a : Namespace) → namespace_beq a a ≡ true
unfolding namespace_beq
namespace_beq_refl dags = refl
namespace_beq_refl sedimentrees = refl
namespace_beq_refl blobs = refl
namespace_beq_refl (other a) = =?-refl a

pub eq_of_namespace_beq : (a b : Namespace) → namespace_beq a b ≡ true → a ≡ b
unfolding namespace_beq
eq_of_namespace_beq dags dags h = refl
eq_of_namespace_beq sedimentrees sedimentrees h = refl
eq_of_namespace_beq blobs blobs h = refl
eq_of_namespace_beq (other a) (other b) h = ap other (eq_of_=? a b h)
eq_of_namespace_beq dags sedimentrees h = absurd (cc h)
eq_of_namespace_beq dags blobs h = absurd (cc h)
eq_of_namespace_beq dags (other b) h = absurd (cc h)
eq_of_namespace_beq sedimentrees dags h = absurd (cc h)
eq_of_namespace_beq sedimentrees blobs h = absurd (cc h)
eq_of_namespace_beq sedimentrees (other b) h = absurd (cc h)
eq_of_namespace_beq blobs dags h = absurd (cc h)
eq_of_namespace_beq blobs sedimentrees h = absurd (cc h)
eq_of_namespace_beq blobs (other b) h = absurd (cc h)
eq_of_namespace_beq (other a) dags h = absurd (cc h)
eq_of_namespace_beq (other a) sedimentrees h = absurd (cc h)
eq_of_namespace_beq (other a) blobs h = absurd (cc h)

pub both : (a b : Bool) → (a && b) ≡ true → (a ≡ true) × (b ≡ true)
both true b h = (refl, h)
both false b h = absurd (cc h)

pub key_refl :
    (k : StorageKey)
    → (namespace_beq k.namespace k.namespace && list_beq k.remaining k.remaining) ≡ true
key_refl k = rw (namespace_beq_refl k.namespace) ((list_beq_iff k.remaining k.remaining).1 refl)

instance abbrev pub key_eq : Eq StorageKey
key_eq = record {
  beq = λ a b. namespace_beq a.namespace b.namespace && list_beq a.remaining b.remaining;
  beq_iff = λ a b. (
    λ h.
        let (p, q) =
          both (namespace_beq a.namespace b.namespace) (list_beq a.remaining b.remaining) h in
        ap (λ n. record { namespace = n; remaining = a.remaining })
          (eq_of_namespace_beq a.namespace b.namespace p)
        ∙ ap (λ r. record { namespace = b.namespace; remaining = r })
            ((list_beq_iff a.remaining b.remaining).0 q),
    λ p.
        ap
          (λ (k : StorageKey).
            namespace_beq a.namespace k.namespace && list_beq a.remaining k.remaining)
          (sym p)
        ∙ key_refl a,
  );
}
